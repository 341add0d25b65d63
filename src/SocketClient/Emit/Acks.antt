-- ===== src/SocketClient/Emit/Acks.antt =====
-- socket.io/v5/client: acknowledgement callbacks over the life of a client.
use go_socket_io.Base.{ℕ, ◌≤◌, ◌≡◌, false, Option, none, [], Bytes, arith}
use go_socket_io.Base.Int.{pos}
use go_socket_io.SocketParser.Packet.{Event}
use go_socket_io.SocketClient.{Parser, Client}
use go_socket_io.SocketClient.Messages.{handle_ack}
use go_socket_io.SocketClient.Emit.{is_some}
use go_socket_io.SocketClient.Emit.Run.{Reach}
use go_socket_io.SocketClient.Emit.Ledger.{
  Ledger, Move, idle, asks, settles, Moves, stay, after, view,
}
use go_socket_io.SocketClient.Emit.Ledger.Refinement.{Reach-Moves}

-- The id is used up: it was given out, and waits for no answer any more.
abbrev IsSpent : ℕ → Ledger → Type 0
IsSpent n a = (n ≤ a.last) × (a.waits n ≡ false)

-- A move of the ledger never brings back an id that is used up.
Move-IsSpent : {a b : Ledger} (n : ℕ) → IsSpent n a → Move a b → IsSpent n b
Move-IsSpent n s (idle same w) = ground (arith, w n)
Move-IsSpent n s (asks more w) = ground (arith, w n)
Move-IsSpent n s (settles m same w) = ground (arith, w n)

Moves-IsSpent : {a b : Ledger} (n : ℕ) → IsSpent n a → Moves a b → IsSpent n b
Moves-IsSpent n s stay = s
Moves-IsSpent n s (after r m) = Move-IsSpent n (Moves-IsSpent n s r) m

is_some-none : {X : Type 0} (o : Option X) → is_some o ≡ false → o ≡ none
is_some-none o e = ground arith

handle_ack_spends :
    {H A T D : Type 0} (c : Client H A T D) (event : Event Bytes) (n : ℕ)
    → n ≤ c.ack_counter
    → IsSpent n (view (handle_ack c event (pos n)).0)
unfolding handle_ack
handle_ack_spends c event n h = ground arith

handle_ack-none :
    {H A T D : Type 0} (c : Client H A T D) (event : Event Bytes) (n : ℕ)
    → c.ack_callbacks n ≡ none
    → (handle_ack c event (pos n)).1 ≡ []
unfolding handle_ack
handle_ack-none c event n h = ground arith

-- An acknowledgement is answered once: when the answer to an id that was given out has been
-- handled, any other answer to it, however many steps of whatever kind later, starts nothing.
pub handle_ack_once :
    {C H A T D : Type 0} (p : Parser C H) (c later : Client H A T D) (n : ℕ)
    (first second : Event Bytes)
    → n ≤ c.ack_counter
    → Reach p (handle_ack c first (pos n)).0 later
    → (handle_ack later second (pos n)).1 ≡ []
handle_ack_once p c later n first second h r =
    let spent = Moves-IsSpent n (handle_ack_spends c first n h) (Reach-Moves r) in
    handle_ack-none later second n (is_some-none (later.ack_callbacks n) spent.1)
