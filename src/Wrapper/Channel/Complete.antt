-- ===== src/Wrapper/Channel/Complete.antt =====
-- What a transfer writes, whatever the schedule.
use mathlib.Core.List.{append-nil, append_assoc}
use translation_runtime_arch.Prelude.{
  Option-cases, ℕ, String, ◌≡◌, refl, sym, ap, ◌∙◌, Bool, true, false, ◌||◌, Option, some, List, [],
  ◌∷◌, ◌++◌, arith, All, Bool-cases, inl, inr,
}
use translation_runtime_arch.Wrapper.Channel.{
  Pipe, receive, received, Drain, to_eof, answers, later, drain, drained, is_fatal, Tick, sound,
  transfer, transferred, Transferred, io_loop, exit_code, opened,
}

-- all that a pipe carries
abbrev whole : Pipe → List String
whole p = p.written ++ p.waiting

receive-whole : (ws vs : List String) → whole (receive ws vs) ≡ vs ++ ws
unfolding receive
receive-whole [] vs = refl
receive-whole (w ∷ ws) vs = append_assoc vs (w ∷ []) ws

received-whole : (b : Bool) (p : Pipe) → whole (received b p) ≡ whole p
unfolding received
received-whole true p = receive-whole p.waiting p.written
received-whole false p = refl

drain-whole : (d : Drain) (ws vs : List String) → whole (drain d ws vs) ≡ vs ++ ws
unfolding drain
drain-whole d [] vs = refl
drain-whole d (w ∷ ws) vs = elim (Bool-cases (answers d)) [
  | inl e ↦ rw (e, drain) (drain-whole (later d) ws (vs ++ w ∷ []) ∙ append_assoc vs (w ∷ []) ws)
  | inr e ↦ rw (e, drain) refl
]

drain-to_eof :
    (ws vs : List String) → drain to_eof ws vs ≡ record { waiting = []; written = vs ++ ws }
unfolding drain later answers
drain-to_eof [] vs = ap (λ l. record { waiting = []; written = l }) (sym (append-nil vs))
drain-to_eof (w ∷ ws) vs =
    drain-to_eof ws (vs ++ w ∷ [])
    ∙ ap (λ l. record { waiting = []; written = l }) (append_assoc vs (w ∷ []) ws)

-- two pipes carry the same as two others
abbrev Keeps : Pipe × Pipe → Pipe → Pipe → Type 0
Keeps r out err = (whole r.0 ≡ whole out) × (whole r.1 ≡ whole err)

drained-Keeps : (t : Tick) (out err : Pipe) → Keeps (drained t out err) out err
unfolding drained
drained-Keeps t out err = (
  drain-whole t.stdout_drain out.waiting out.written,
  ground (arith, drain-whole t.stderr_drain err.waiting err.written),
)

transfer-Keeps :
    (ts : List Tick) (out err : Pipe) (r : Pipe × Pipe)
    → transfer ts out err ≡ some r
    → Keeps r out err
unfolding transfer
transfer-Keeps [] out err r h = ground (arith, h)
transfer-Keeps (t ∷ ts) out err r h =
    let out' = received t.recv_ready out in
    let err' = received t.recv_stderr_ready err in
    ground (
      arith,
      h,
      received-whole t.recv_ready out,
      received-whole t.recv_stderr_ready err,
      drained-Keeps t out' err',
      transfer-Keeps ts out' err' r,
    )

-- Whatever the schedule, and also if a drain stalls or a call raises: if the loop ends, what is
-- written to each stream is an initial part of what the remote side sends, in its order, and the
-- answer is the exit status, or 255 without one.
pub io_loop-prefix :
    (ts : List Tick) (out err : List String) (status : Option ℕ) (r : Transferred)
    → io_loop ts out err status ≡ some r
    → (out' : List String) × (err' : List String) × (out ≡ r.stdout ++ out')
      × (err ≡ r.stderr ++ err')
      × (r.code ≡ exit_code status)
unfolding io_loop transferred
io_loop-prefix ts out err status r h = elim (Option-cases (transfer ts (opened out) (opened err))) [
  | inl e ↦ absurd (ground (arith, h, e))
  | inr (p, e) ↦
      let k = transfer-Keeps ts (opened out) (opened err) p e in
      (
        p.0.waiting,
        p.1.waiting,
        ground (arith, h, e, k.0),
        ground (arith, h, e, k.1),
        ground (arith, h, e),
      )
]

-- a round that the loop goes on after
pub record IsQuiet (t : Tick) : Type 0 where
  pub goes_on : t.stop ≡ false
  pub is_sound : t.fault ≡ sound
  pub open_ : (t.exit_status_ready || t.closed) ≡ false

-- a round in which the remote side has ended, and both drains get to the end of the stream
pub record IsLast (t : Tick) : Type 0 where
  pub no_stop : t.stop ≡ false
  pub no_fault : t.fault ≡ sound
  pub over : (t.exit_status_ready || t.closed) ≡ true
  pub out_ends : t.stdout_drain ≡ to_eof
  pub err_ends : t.stderr_drain ≡ to_eof

transfer_quiet :
    (t : Tick) (ts : List Tick) (out err : Pipe)
    → IsQuiet t
    → transfer (t ∷ ts) out err
      ≡ transfer ts (received t.recv_ready out) (received t.recv_stderr_ready err)
unfolding transfer
transfer_quiet t ts out err q = ground arith

drained_all :
    (t : Tick) (out err : Pipe)
    → IsLast t
    → drained t out err
      ≡ (record { waiting = []; written = whole out }, record { waiting = []; written = whole err })
unfolding drained is_fatal
drained_all t out err l =
    ground (arith, drain-to_eof out.waiting out.written, drain-to_eof err.waiting err.written)

transfer_last :
    (t : Tick) (ts : List Tick) (out err : Pipe)
    → IsLast t
    → transfer (t ∷ ts) out err
      ≡ some (
        record { waiting = []; written = whole out },
        record { waiting = []; written = whole err },
      )
unfolding transfer
transfer_last t ts out err l =
    let out' = received t.recv_ready out in
    let err' = received t.recv_stderr_ready err in
    ground (
      arith,
      drained_all t out' err' l,
      received-whole t.recv_ready out,
      received-whole t.recv_stderr_ready err,
    )

transfer_all :
    (ts : List Tick) (t : Tick) (us : List Tick) (out err : Pipe)
    → All IsQuiet ts
    → IsLast t
    → transfer (ts ++ t ∷ us) out err
      ≡ some (
        record { waiting = []; written = whole out },
        record { waiting = []; written = whole err },
      )
transfer_all [] t us out err q l = transfer_last t us out err l
transfer_all (s ∷ ts) t us out err q l =
    transfer_quiet s (ts ++ t ∷ us) out err q.0
    ∙ transfer_all ts t us (received s.recv_ready out) (received s.recv_stderr_ready err) q.1 l
    ∙ rw (received-whole s.recv_ready out, received-whole s.recv_stderr_ready err)

-- If the remote side ends or the channel is closed after any number of rounds, in each of which either
-- stream may have been ready, and both drains get to the end of the stream, then the loop ends: all
-- that the remote side sends is written, in its order, and the answer is the exit status, or 255
-- without one.
pub io_loop_complete :
    (ts : List Tick) (t : Tick) (us : List Tick) (out err : List String) (status : Option ℕ)
    → All IsQuiet ts
    → IsLast t
    → io_loop (ts ++ t ∷ us) out err status
      ≡ some (record { stdout = out; stderr = err; code = exit_code status })
unfolding io_loop transferred
io_loop_complete ts t us out err status q l =
    ap (transferred status) (transfer_all ts t us (opened out) (opened err) q l)
