-- ===== src/Webrtc/Manager/Soundness.antt =====
-- The invariant of the manager's maps.
use whl_air.Base.{String, ◌≡◌, ◌≢◌, eq_iff, Bool, true, false, Option, none, some, arith}
use whl_air.StringMap.{Map, find, insert, erase, find-insert, find-erase}
use whl_air.Webrtc.Interfaces.{IPeerConnection, ISignalingClient}
use whl_air.Webrtc.Manager.{Manager}
use whl_air.Webrtc.Manager.Peers.{connect_to_peer, hold}

-- No key is mapped to a null pointer.
pub record HasNoNull {A : Type 0} (peers : Map (Option A)) : Type 0 where
  pub at : (peer : String) → find peer peers ≢ some none

-- Candidates are buffered only for peers whose remote description is not set.
pub record IsBuffer {A : Type 0} (marks : Map Bool) (pending : Map A) : Type 0 where
  pub at : (peer : String) → find peer marks ≡ some true → find peer pending ≡ none

module _ {A : Type 0} where
  pub insert-HasNoNull :
      (peer : String) (a : A) (peers : Map (Option A))
      → HasNoNull peers
      → HasNoNull (insert peer (some a) peers)
  insert-HasNoNull peer a peers h = record {
    at = λ j. ground (arith, find-insert peer j (some a) peers, h.at j);
  }

  pub erase-HasNoNull :
      (peer : String) (peers : Map (Option A)) → HasNoNull peers → HasNoNull (erase peer peers)
  erase-HasNoNull peer peers h = record {
    at = λ j. ground (arith, find-erase peer j peers, h.at j);
  }

  pub marked-IsBuffer :
      (peer : String) (marks : Map Bool) (pending : Map A)
      → IsBuffer marks pending
      → IsBuffer (insert peer true marks) (erase peer pending)
  marked-IsBuffer peer marks pending h = record {
    at = λ j e. ground (arith, find-insert peer j true marks, find-erase peer j pending, h.at j);
  }

  pub unmarked-IsBuffer :
      (peer : String) (marks : Map Bool) (pending : Map A)
      → IsBuffer marks pending
      → IsBuffer (insert peer false marks) pending
  unmarked-IsBuffer peer marks pending h = record {
    at = λ j e. ground (arith, find-insert peer j false marks, h.at j);
  }

  pub created-IsBuffer :
      (peer : String) (marks : Map Bool) (pending : Map A)
      → IsBuffer marks pending
      → IsBuffer (insert peer false marks) (erase peer pending)
  created-IsBuffer peer marks pending h = record {
    at = λ j e. ground (arith, find-insert peer j false marks, find-erase peer j pending, h.at j);
  }

  pub erased-IsBuffer :
      (peer : String) (marks : Map Bool) (pending : Map A)
      → IsBuffer marks pending
      → IsBuffer (erase peer marks) (erase peer pending)
  erased-IsBuffer peer marks pending h = record {
    at = λ j e. ground (arith, find-erase peer j marks, find-erase peer j pending, h.at j);
  }

  pub pushed-IsBuffer :
      (peer : String) (marks : Map Bool) (pending : Map A) (a : A)
      → find peer marks ≢ some true
      → IsBuffer marks pending
      → IsBuffer marks (insert peer a pending)
  pushed-IsBuffer peer marks pending a n h = record {
    at = λ j e. ground (arith, eq_iff peer j, find-insert peer j a pending, h.at j);
  }

-- The manager holds no null pointer, and buffers candidates only for peers whose remote description
-- is not set.
pub record IsSound {net : IPeerConnection} {sig : ISignalingClient} (m : Manager net sig)
    : Type 0 where
  pub no_null : HasNoNull m.peer_connections
  pub buffer : IsBuffer m.remote_description_set m.pending_remote_candidates

module _ {net : IPeerConnection} {sig : ISignalingClient} (m : Manager net sig)
    (s : IsSound m) where
  pub hold-IsSound : (peer : String) (pc : net.Pc) → IsSound (hold peer pc m)
  unfolding hold
  hold-IsSound peer pc = record {
    no_null = insert-HasNoNull peer pc m.peer_connections s.no_null;
    buffer = s.buffer;
  }

  pub connect_to_peer-IsSound :
      (peer : String) (created : Option net.Pc) → IsSound (connect_to_peer m peer created).0
  unfolding connect_to_peer
  connect_to_peer-IsSound peer none = ground arith
  connect_to_peer-IsSound peer (some pc) = ground (arith, hold-IsSound peer (net.create_offer pc).0)
