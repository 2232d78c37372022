-- ===== src/Wrapper/Channel.antt =====
-- docs/ssh_git_wrapper_v3.py: `forward_stdin` and `io_loop`. A channel is what the remote side sends,
-- cut into the pieces that `recv` answers; when it is ready, stalls, ends or fails is a schedule.
-- Signal handlers, sleeping and logging are left out but for the event that a signal sets.
pub mod Complete
pub mod Upload
use translation_runtime_arch.Prelude.{
  length, leb, ◌-◌, ℕ, zero, suc, String, Bool, true, false, ◌||◌, Option, none, some, List, [],
  ◌∷◌, ◌++◌, if◌then◌else◌,
}

-- One direction: what is still to be received, and what was written to the local stream. A piece
-- is not empty, since an empty one is the end of the stream.
pub record Pipe : Type 0 where
  pub waiting : List String
  pub written : List String

-- `data = channel.recv(65536)`, and `write(data)` if there is any
unfoldable pub receive : List String → List String → Pipe
receive [] written = record { waiting = []; written = written }
receive (piece ∷ waiting) written = record { waiting = waiting; written = written ++ piece ∷ [] }

-- how a drain goes: to the end of the stream, or to a timeout or to another exception after some pieces
pub data Drain : Type 0 where
  to_eof : Drain
  times_out raises : ℕ → Drain

-- one piece later
later : Drain → Drain
later to_eof = to_eof
later (times_out n) = times_out (n - 1)
later (raises n) = raises (n - 1)

-- whether the next `recv` answers
answers : Drain → Bool
answers to_eof = true
answers (times_out zero) = false
answers (times_out (suc n)) = true
answers (raises zero) = false
answers (raises (suc n)) = true

-- the drain loop: `recv` and `write` up to the end of the stream or to a timeout
unfoldable pub drain : Drain → List String → List String → Pipe
unfolding later answers
drain d [] written = record { waiting = []; written = written }
drain d (piece ∷ waiting) written = elim (answers d) [
  | true ↦ drain (later d) waiting (written ++ piece ∷ [])
  | false ↦ record { waiting = piece ∷ waiting; written = written }
]

-- A timeout ends one drain, another exception both, unless the stream ends before it.
is_fatal : Drain → List String → Bool
is_fatal (raises n) waiting = leb n (length waiting)
is_fatal _ waiting = false

-- which call of a round raises, if one does
pub data Fault : Type 0 where
  sound at_stdout at_stderr at_status : Fault

-- What the channel answers in one round of the loop.
pub record Tick : Type 0 where
  pub stop : Bool
  pub recv_ready : Bool
  pub recv_stderr_ready : Bool
  pub exit_status_ready : Bool
  pub closed : Bool
  pub fault : Fault
  pub stdout_drain : Drain
  pub stderr_drain : Drain

unfoldable pub received : Bool → Pipe → Pipe
unfolding receive
received true p = receive p.waiting p.written
received false p = p

-- the last round: both streams are drained
unfoldable pub drained : Tick → Pipe → Pipe → Pipe × Pipe
unfolding is_fatal
drained t out err = (
  drain t.stdout_drain out.waiting out.written,
  (if is_fatal t.stdout_drain out.waiting
      then err
      else drain t.stderr_drain err.waiting err.written),
)

-- The `while` loop of `io_loop`, over what the channel answers; `none` where it still runs.
unfoldable pub transfer : List Tick → Pipe → Pipe → Option (Pipe × Pipe)
transfer [] out err = none
transfer (t ∷ ts) out err =
    let out' = received t.recv_ready out in
    let err' = received t.recv_stderr_ready err in
    elim t.stop [
      | true ↦ some (out, err)
      | false ↦ elim t.fault [
        | at_stdout ↦ some (out, err)
        | at_stderr ↦ some (out', err)
        | at_status ↦ some (out', err')
        | sound ↦ elim (t.exit_status_ready || t.closed) [
          | true ↦ some (drained t out' err')
          | false ↦ transfer ts out' err'
        ]
      ]
    ]

-- what is returned for the exit status, if there is one when the loop is over
unfoldable pub exit_code : Option ℕ → ℕ
exit_code none = 255
exit_code (some status) = status

abbrev pub opened : List String → Pipe
opened pieces = record { waiting = pieces; written = [] }

pub record Transferred : Type 0 where
  pub stdout : List String
  pub stderr : List String
  pub code : ℕ

transferred : Option ℕ → Option (Pipe × Pipe) → Option Transferred
transferred status none = none
transferred status (some (out, err)) =
    some (record { stdout = out.written; stderr = err.written; code = exit_code status })

-- `io_loop` on a channel whose remote side sends these pieces
unfoldable pub io_loop : List Tick → List String → List String → Option ℕ → Option Transferred
unfolding transferred
io_loop ts out err status = transferred status (transfer ts (opened out) (opened err))

-- What happens to `forward_stdin` in a round: the event is set, `select` or the read raises, nothing
-- is there, the input ends, or a piece is read, which is sent or of which only a part is.
pub data Event : Type 0 where
  shutdown failed idle eof : Event
  read : String → Event
  cut_off : String → Event

pub record Sender : Type 0 where
  pub sent : List String
  pub blocking : Bool
  pub write_shut : Bool

-- the `finally` block
unfoldable pub shut : Sender → Sender
shut s = record s { write_shut = true }

-- `sendall` in blocking mode, and non-blocking mode again, also behind an exception
unfoldable pub send : String → Sender → Sender
send piece s = record s { sent = s.sent ++ piece ∷ []; blocking = false }

-- `forward_stdin`; `none` where it still runs
unfoldable pub forward_stdin : List Event → Sender → Option Sender
forward_stdin [] s = none
forward_stdin (shutdown ∷ es) s = some (shut s)
forward_stdin (failed ∷ es) s = some (shut s)
forward_stdin (eof ∷ es) s = some (shut s)
forward_stdin (idle ∷ es) s = forward_stdin es s
forward_stdin (read piece ∷ es) s = forward_stdin es (send piece s)
forward_stdin (cut_off part ∷ es) s = some (shut (send part s))
