-- ===== src/Logger.antt =====
-- utils/logger.go: the levels of a line and the logger that prints those from its level on. The
-- text of a line is put together before.
use go_socket_io.Base.{ℕ, Bool, true, List, [], ◌∷◌, ◌++◌, Bytes, leb, if◌then◌else◌}
use go_socket_io.Base.Int.{ℤ, pos, negsuc}

abbrev pub debug : ℕ
debug = 0

abbrev pub info : ℕ
info = 1

abbrev pub warn : ℕ
warn = 2

abbrev pub error : ℕ
error = 3

abbrev pub silent : ℕ
silent = 4

pub record DefaultLogger : Type 0 where
  pub level : ℤ

-- A call of one of the four methods: the level of the method and the text.
abbrev pub Line : Type 0
Line = ℕ × Bytes

abbrev lets_pass : ℤ → ℕ → Bool
lets_pass (pos l) n = leb l n
lets_pass (negsuc l) n = true

-- `Debugf`, `Infof`, `Warnf` and `Errorf`.
unfoldable pub logf : DefaultLogger → Line → List Bytes
logf l (n, text) = if lets_pass l.level n then text ∷ [] else []

unfoldable pub printed : DefaultLogger → List Line → List Bytes
unfolding logf
printed l [] = []
printed l (line ∷ lines) = logf l line ++ printed l lines
