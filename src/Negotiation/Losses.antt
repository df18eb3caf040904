-- ===== src/Negotiation/Losses.antt =====
-- The candidates of src/webrtc/mod.rs when the peer refuses some of them: `answer` stops at the first
-- one that it refuses and drops those that waited behind it.
use mathlib.Core.List.{Sublistᴰ}
use mathlib.Core.List.Sublistᴰ
use mumdota.Base.{List}
use mumdota.Negotiation.{PeerOps, WebrtcSession}
use mumdota.Negotiation.Pending.{Orderly, InOrder, handed_over}

module _ {S : Type 0} (ops : PeerOps S) (orderly : Orderly ops) where
  -- What a step keeps: the order, and of what was handed over or waits it adds nothing.
  abbrev Loses : WebrtcSession S → WebrtcSession S → Type 0
  Loses s s' =
      InOrder ops orderly s' × Sublistᴰ (handed_over ops orderly s') (handed_over ops orderly s)
