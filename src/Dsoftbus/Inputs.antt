-- ===== src/Dsoftbus/Inputs.antt =====
-- What happens to the transport of src/transport_dsoftbus.cpp.
use mdds.Base.{ℕ, ◌+◌, Bool, Option, List, [], ◌∷◌, ◌++◌, length}
use mdds.Dsoftbus.{
  Dsoftbus, Effect, online, begin_bind, fail_bind, on_bind, on_shutdown, on_error,
  on_bytes_received,
}
use mdds.Dsoftbus.Traffic.{send, lane_round}
use mdds.Dsoftbus.Known.{IsFree}

-- What happens to the transport: a callback of the client library, a step of `connect_online_peers` or of a
-- lane's worker, or a `send`. `ok` is whether `SendBytes` succeeds.
pub data Input : Type 0 where
  are_online : List (List ℕ) → Input
  begins : (nid : List ℕ) (fd : Option ℕ) → Input
  fails : (nid : List ℕ) (fd : ℕ) → Input
  binds : (fd : ℕ) (nid : List ℕ) (limit : ℕ) → Input
  shuts : (fd : ℕ) → Input
  errs : (fd : ℕ) → Input
  receives : (fd : ℕ) → List ℕ → Input
  sends : (peer : ℕ) → List ℕ → Input
  works : (nid : List ℕ) (ok : Bool) → Input

unfoldable pub input : Dsoftbus → Input → Dsoftbus × List Effect
input d (are_online nids) = ((online d nids).0, [])
input d (begins nid fd) = begin_bind d nid fd
input d (fails nid fd) = fail_bind d nid fd
input d (binds fd nid limit) = on_bind d fd nid limit
input d (shuts fd) = on_shutdown d fd
input d (errs fd) = on_error d fd
input d (receives fd bytes) = (d, on_bytes_received d fd bytes)
input d (sends peer bytes) = ((send d peer bytes).0, [])
input d (works nid ok) = lane_round d nid ok

unfoldable pub inputs : Dsoftbus → List Input → Dsoftbus × List Effect
inputs d [] = (d, [])
inputs d (x ∷ xs) = let (d', es) = input d x in let (d'', fs) = inputs d' xs in (d'', es ++ fs)

-- How many ids the input can take.
abbrev pub ids_taken : Input → ℕ
ids_taken (are_online nids) = length nids
ids_taken (begins nid fd) = 0
ids_taken (fails nid fd) = 0
ids_taken (binds fd nid limit) = 1
ids_taken (shuts fd) = 0
ids_taken (errs fd) = 0
ids_taken (receives fd bytes) = 0
ids_taken (sends peer bytes) = 0
ids_taken (works nid ok) = 0

abbrev pub all_ids_taken : List Input → ℕ
all_ids_taken [] = 0
all_ids_taken (x ∷ xs) = ids_taken x + all_ids_taken xs

-- The client library binds no descriptor to one peer while it is another's channel.
abbrev pub IsFreshBind : Dsoftbus → Input → Type 0
IsFreshBind d (binds fd nid limit) = IsFree fd nid d.peers
IsFreshBind d (are_online nids) = Unit {0}
IsFreshBind d (begins nid fd) = Unit {0}
IsFreshBind d (fails nid fd) = Unit {0}
IsFreshBind d (shuts fd) = Unit {0}
IsFreshBind d (errs fd) = Unit {0}
IsFreshBind d (receives fd bytes) = Unit {0}
IsFreshBind d (sends peer bytes) = Unit {0}
IsFreshBind d (works nid ok) = Unit {0}

abbrev pub AllFreshBinds : Dsoftbus → List Input → Type 0
AllFreshBinds d [] = Unit {0}
AllFreshBinds d (x ∷ xs) = IsFreshBind d x × AllFreshBinds (input d x).0 xs
