-- ===== src/Wrapper/Channel/Upload.antt =====
-- What `forward_stdin` sends.
use mathlib.Core.List.{append-nil, append_assoc}
use translation_runtime_arch.Prelude.{
  String, ◌≡◌, refl, ◌∙◌, true, false, some, List, [], ◌∷◌, ◌++◌, arith,
}
use translation_runtime_arch.Wrapper.Channel.{
  Event, shutdown, failed, idle, eof, read, cut_off, Sender, shut, send, forward_stdin,
}

-- the pieces that are handed to the channel before the forwarding ends
abbrev pub handed : List Event → List String
handed [] = []
handed (shutdown ∷ es) = []
handed (failed ∷ es) = []
handed (eof ∷ es) = []
handed (idle ∷ es) = handed es
handed (read piece ∷ es) = piece ∷ handed es
handed (cut_off part ∷ es) = part ∷ []

-- Whatever ends the forwarding, also an exception: what was handed to the channel is sent, once and in
-- its order, the channel is in non-blocking mode if it was before, and its writing side is shut.
pub forward_stdin-handed :
    (es : List Event) (s s' : Sender)
    → s.blocking ≡ false
    → forward_stdin es s ≡ some s'
    → (s'.sent ≡ s.sent ++ handed es) × (s'.blocking ≡ false) × (s'.write_shut ≡ true)
unfolding forward_stdin shut send
forward_stdin-handed [] s s' b h = ground (arith, h)
forward_stdin-handed (shutdown ∷ es) s s' b h = ground (arith, h, append-nil s.sent)
forward_stdin-handed (failed ∷ es) s s' b h = ground (arith, h, append-nil s.sent)
forward_stdin-handed (eof ∷ es) s s' b h = ground (arith, h, append-nil s.sent)
forward_stdin-handed (idle ∷ es) s s' b h = forward_stdin-handed es s s' b h
forward_stdin-handed (read piece ∷ es) s s' b h =
    let ih = forward_stdin-handed es (send piece s) s' refl h in
    (ih.0 ∙ append_assoc s.sent (piece ∷ []) (handed es), ih.1, ih.2)
forward_stdin-handed (cut_off part ∷ es) s s' b h = ground (arith, h)
