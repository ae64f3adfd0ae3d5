-- ===== src/Portal/Pairing.antt =====
-- src/portal/pairing.rs and src/portal/pairing/state.rs: the registry of logical flows, where the
-- two halves of a split flow meet. A mutex is held for one operation on the state, so each
-- operation here is what runs under its locks. A `SessionId` is the number of its 16 bytes. The
-- readers and writers of the halves are values of types `U` (uplinks), `D` (downlinks) and `L`
-- (the readers that watch a TCP downlink); what is written on a downlink is kept in `rejected`.
pub mod Claims
pub mod Reject
pub mod Arms
pub mod Install
pub mod Submit
pub mod Cancel
pub mod Links
pub mod State
pub mod ClaimLimit
pub mod Calm
pub mod Halves
pub mod Fill
pub mod Pairs
pub mod Offers
pub mod Shapes
pub mod Roles
pub mod Meet
pub mod Ends
pub mod Relink
pub mod Generations
pub mod LinkSums
pub mod LinkCount
pub mod LinkSteps
pub mod TombstoneRoom
pub mod Tombstones
pub mod Steps
pub mod Runs
pub mod SubmitRuns
pub mod Submissions
pub mod Operations
pub mod Beside
pub mod Lease
pub mod LeaseCancel
pub mod Buried
pub mod TombstoneLookup
mod Tests
mod LinkTests
use nowhere.Common.{ℕ, ◌+◌, List, [], ◌∷◌, Bool, true, false, ◌==◌, ◌&&◌, Option, none, some}
use nowhere.Protocol.Flow.{FlowKind, tcp, udp, Carrier, same_carrier}
use nowhere.Protocol.Setup.{FlowErrorCode}
use nowhere.Protocol.Target.{SocketAddr, v4, v6, Target, ip, domain}

pub record FlowKey : Type 0 where
  pub session_id : ℕ
  pub flow_id : ℕ

-- The derived `PartialEq`s.
abbrev pub same_flow : FlowKey → FlowKey → Bool
same_flow a b = a.session_id == b.session_id && a.flow_id == b.flow_id

abbrev pub same_kind : FlowKind → FlowKind → Bool
same_kind tcp tcp = true
same_kind udp udp = true
same_kind _ _ = false

pub record Metadata : Type 0 where
  pub kind : FlowKind
  pub uplink : Carrier
  pub downlink : Carrier

abbrev pub same_metadata : Metadata → Metadata → Bool
same_metadata a b =
    same_kind a.kind b.kind && same_carrier a.uplink b.uplink && same_carrier a.downlink b.downlink

abbrev pub same_list : List ℕ → List ℕ → Bool
same_list [] [] = true
same_list (a ∷ xs) (b ∷ ys) = a == b && same_list xs ys
same_list _ _ = false

abbrev pub same_address : SocketAddr → SocketAddr → Bool
same_address (v4 a p) (v4 b q) = same_list a b && p == q
same_address (v6 a p f s) (v6 b q g t) = same_list a b && p == q && f == g && s == t
same_address _ _ = false

abbrev pub same_target : Target → Target → Bool
same_target (ip a) (ip b) = same_address a b
same_target (domain a p) (domain b q) = same_list a b && p == q
same_target _ _ = false

abbrev pub same_generation : Option ℕ → Option ℕ → Bool
same_generation none none = true
same_generation (some a) (some b) = a == b
same_generation _ _ = false

pub record LinkPath : Type 0 where
  pub peer : List ℕ
  pub local : List ℕ

pub record LinkHalf : Type 0 where
  pub path : LinkPath
  pub quic_generation : Option ℕ

-- `PendingTcp`, whose `flow_permit` is `none`, and `PendingUdp`, whose `downlink_liveness` is
-- `none`. A permit is the number of its semaphore.
pub record Pending (U D L : Type 0) : Type 0 where
  pub epoch : ℕ
  pub metadata : Metadata
  pub quic_snapshot : Option ℕ
  pub target : Option Target
  pub uplink : Option U
  pub downlink : Option D
  pub downlink_liveness : Option L
  pub flow_permit : Option ℕ
  pub uplink_path : Option LinkPath
  pub downlink_path : Option LinkPath
  pub uplink_generation : Option ℕ
  pub downlink_generation : Option ℕ

-- The QUIC carrier of a session is its generation; its `replacement` token has the same
-- number.
pub record LinkCounts : Type 0 where
  pub tcp : ℕ
  pub udp : Option ℕ
  pub udp_flow_budget : ℕ

-- `cancel` is the number of a cancellation token.
pub record FlowClaim : Type 0 where
  pub epoch : ℕ
  pub metadata : Metadata
  pub target : Option Target
  pub active : Bool
  pub cancel : ℕ
  pub quic_generations : List ℕ

pub record FlowLease : Type 0 where
  pub key : FlowKey
  pub epoch : ℕ
  pub cancel : ℕ
  pub udp_permit : Option ℕ

pub record TerminalRejection : Type 0 where
  pub code : FlowErrorCode
  pub expires_at : ℕ

-- The registry, and what its operations act on beside it: the permits that each semaphore has
-- left, the cancelled tokens of flows and of replaced QUIC carriers, and the rejections written on
-- downlinks. `next_semaphore` is the number of the next semaphore that is made.
pub record Registry (U D L : Type 0) : Type 0 where
  pub tcp : List (FlowKey × Pending U D L)
  pub udp : List (FlowKey × Pending U D L)
  pub links : List (ℕ × LinkCounts)
  pub claims : List (FlowKey × FlowClaim)
  pub rejections : List (FlowKey × TerminalRejection)
  pub next_quic_generation : ℕ
  pub next_epoch : ℕ
  pub max_pending : ℕ
  pub timeout : ℕ
  pub max_udp_flows : ℕ
  pub permits : List (ℕ × ℕ)
  pub next_semaphore : ℕ
  pub cancelled : List ℕ
  pub replaced : List ℕ
  pub rejected : List (D × FlowErrorCode)

-- `PairedTcp` and `PairedUdp`: the former has no `flow_id`, the latter no `downlink_liveness`.
pub record Paired (U D L : Type 0) : Type 0 where
  pub flow_id : ℕ
  pub target : Target
  pub uplink : U
  pub downlink : D
  pub downlink_liveness : Option L
  pub uplink_carrier : Carrier
  pub downlink_carrier : Carrier
  pub uplink_path : LinkPath
  pub downlink_path : LinkPath
  pub flow_lease : FlowLease
