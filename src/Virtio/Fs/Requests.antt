-- ===== src/Virtio/Fs/Requests.antt =====
-- packages/kernel/src/virtio/fs.ts: the requests of one queue, in turn, keep the counts of
-- the table.
use distro.Common.{
  ℕ, ◌≡◌, ◌≢◌, refl, sym, ap, Bool, true, false, List, [], ◌∷◌, Option, none, some, Result, ok,
  throw, ◌>>=◌, ◌==◌, if◌then◌else◌, Bool-cases, inl, inr, if_false, All,
}
use mathlib.Core.Path.{subst}
use distro.Virtio.Fs.{
  NodeRecord, HandleRecord, FsState, FsError, FsRequest, lookup, forget_node, batch_forget,
  make_node, open_node, create, rename, release, readdir, destroy, new_state, node_record,
  node_found, ebadf, handle_record, handle_found, is_right, required, serve, process, looked_up,
  keep_known, moved_from, moved_record, list_nodes, by_node, notify, state_after,
}
use distro.Virtio.Fs.Balance.{is_present, IsBalanced}
use distro.Virtio.Fs.Growth.{looked_up-IsAdded, add_handle-IsBalanced}
use distro.Virtio.Fs.Collection.{forget-IsBalanced, remove_handle-IsBalanced}
use distro.Virtio.Fs.Leaks.{IsUsed}
use distro.Virtio.Fs.Tidy.{
  looked_up-IsUsed, forget-IsUsed, forget_all-IsUsed, add_handle-IsUsed, remove_handle-IsUsed,
  list_nodes-IsUsed,
}
use distro.Virtio.Fs.Effects.{
  IsTidy, new_state-IsTidy, forget_all-IsBalanced, list_nodes-IsBalanced, collect_all-IsBalanced,
  finalize-IsTidy, by_node-first, moved_from-IsTidy,
}

-- A request that fails changes nothing; the others keep the counts.
abbrev pub IsKept : Result FsError FsState → Type 0
IsKept (throw e) = Unit {0}
IsKept (ok s) = IsTidy s

-- The backend does not return its root as the node to be renamed.
abbrev pub IsSensible : FsRequest → Type 0
IsSensible (rename newdir (some moved)) = moved ≢ 0
IsSensible (rename newdir none) = Unit {0}
IsSensible (lookup found) = Unit {0}
IsSensible (forget_node count) = Unit {0}
IsSensible (batch_forget entries) = Unit {0}
IsSensible (make_node made) = Unit {0}
IsSensible (open_node handle directory) = Unit {0}
IsSensible (create created handle) = Unit {0}
IsSensible (release fh directory) = Unit {0}
IsSensible (readdir fh nodes) = Unit {0}
IsSensible destroy = Unit {0}

-- The node of the header, where there is one, has a record.
abbrev IsHeader : FsState → Option ℕ → Type 0
IsHeader s none = Unit {0}
IsHeader s (some id) = is_present (s.records id) ≡ true

required-IsKept :
    (s : FsState) (target : Option ℕ) (next : ℕ → Result FsError FsState)
    → IsHeader s target
    → ((id : ℕ) → is_present (s.records id) ≡ true → IsKept (next id))
    → IsKept (required target >>= next)
required-IsKept s none next p k = tt
required-IsKept s (some id) next p k = k id p

handle-IsKept :
    (s : FsState) (fh : ℕ) (flag : Option Bool) (target : Option ℕ)
    (next : HandleRecord → Result FsError FsState)
    → ((h : HandleRecord) → s.handles fh ≡ some h → IsKept (next h))
    → IsKept (handle_record fh flag target s >>= next)
handle-IsKept s fh flag target next k = by_handle (s.handles fh) refl
  where
    by_flag :
        (b : Bool) (h : HandleRecord)
        → s.handles fh ≡ some h
        → IsKept ((if b then ok h else throw ebadf) >>= next)
    by_flag true h e = k h e
    by_flag false h e = tt

    by_handle :
        (o : Option HandleRecord) → s.handles fh ≡ o → IsKept (handle_found o flag target >>= next)
    by_handle none e = tt
    by_handle (some h) e = by_flag (is_right flag target h) h e

node-IsKept :
    (s : FsState) (id : ℕ) (next : NodeRecord → Result FsError FsState)
    → (is_present (s.records id) ≡ true → (r : NodeRecord) → IsKept (next r))
    → IsKept (node_record id s >>= next)
node-IsKept s id next k = by_record (s.records id) refl
  where
    by_record : (o : Option NodeRecord) → s.records id ≡ o → IsKept (node_found o >>= next)
    by_record none e = tt
    by_record (some r) e = k (ap is_present e) r

moved_record-IsTidy :
    (s : FsState) (id newdir : ℕ) (moved : Option ℕ)
    → IsTidy s
    → IsSensible (rename newdir moved)
    → is_present (s.records newdir) ≡ true
    → IsTidy (moved_from (moved_record id newdir moved s) newdir s)
unfolding moved_from
moved_record-IsTidy s id newdir none h m known = h
moved_record-IsTidy s id newdir (some moved) h m known = elim (Bool-cases (id == newdir)) [
  | inl e ↦ rw e h
  | inr e ↦
      subst (λ found. IsTidy (moved_from found newdir s))
        (sym (if_false (id == newdir) none (by_node s.next_nodeid moved s) e))
        (moved_from-IsTidy s newdir moved (by_node s.next_nodeid moved s) h m
          (λ other f. by_node-first s.next_nodeid moved other s f) known)
]

serve-IsKept :
    (s : FsState) (target : Option ℕ) (request : FsRequest)
    → IsTidy s
    → IsHeader s target
    → IsSensible request
    → IsKept (serve target request s)
unfolding serve
serve-IsKept s target (lookup none) h t m = required-IsKept s target _ t (λ id p. tt)
serve-IsKept s target (lookup (some found)) h t m =
    required-IsKept s target _ t
      (λ id p. ((looked_up-IsAdded s found id h.0 p).0, looked_up-IsUsed s found id h.1))
serve-IsKept s target (forget_node count) h t m =
    required-IsKept s target _ t
      (λ id p. (forget-IsBalanced id count s h.0, forget-IsUsed s id count h.0 h.1))
serve-IsKept s target (batch_forget entries) h t m = (
  forget_all-IsBalanced (keep_known s entries) s h.0,
  forget_all-IsUsed (keep_known s entries) s h.0 h.1,
)
serve-IsKept s target (make_node made) h t m =
    required-IsKept s target _ t
      (λ id p. ((looked_up-IsAdded s made id h.0 p).0, looked_up-IsUsed s made id h.1))
serve-IsKept s target (open_node handle directory) h t m = required-IsKept s target _ t (λ id p. (
  add_handle-IsBalanced s id handle directory h.0 p,
  add_handle-IsUsed s id handle directory h.1,
))
serve-IsKept s target (create created handle) h t m = required-IsKept s target _ t (λ id p.
    (let found = looked_up created id s in
      let (b, there) = looked_up-IsAdded s created id h.0 p in
      (
        add_handle-IsBalanced found.0 found.1 handle false b there,
        add_handle-IsUsed found.0 found.1 handle false (looked_up-IsUsed s created id h.1),
      )))
serve-IsKept s target (rename newdir moved) h t m = node-IsKept s newdir _ (λ known r.
    required-IsKept s target _ t (λ id p. moved_record-IsTidy s id newdir moved h m known))
serve-IsKept s target (release fh directory) h t m =
    handle-IsKept s fh (some directory) target _
      (λ o e. (remove_handle-IsBalanced s fh o h.0 e, remove_handle-IsUsed s fh o h.0 e h.1))
serve-IsKept s target (readdir fh nodes) h t m = handle-IsKept s fh (some true) target _ (λ o e.
    (let listed = list_nodes-IsBalanced nodes o.node s (h.0.nodes fh o e) h.0 in
      (
        collect_all-IsBalanced (list_nodes nodes o.node s).1 (list_nodes nodes o.node s).0 listed,
        list_nodes-IsUsed nodes o.node s listed h.1,
      )))
serve-IsKept s target destroy h t m = finalize-IsTidy s h

process-IsKept :
    (id : ℕ) (request : FsRequest) (s : FsState)
    → IsTidy s
    → IsSensible request
    → IsKept (process id request s)
unfolding process
process-IsKept id request s h m = elim (Bool-cases (id == 0)) [
  | inl e ↦ rw e (serve-IsKept s none request h tt m)
  | inr e ↦ rw e (header-IsKept (s.records id) refl)
]
  where
    header-IsKept :
        (o : Option NodeRecord)
        → s.records id ≡ o
        → IsKept (
            ◌>>=◌ {B = FsState}
              (◌>>=◌ {B = Option ℕ} (node_found o) (λ r. ok (some id)))
              (λ target. serve target request s))
    header-IsKept none e = tt
    header-IsKept (some r) e = serve-IsKept s (some id) request h (ap is_present e) m

state_after-IsTidy :
    (result : Result FsError FsState) (s : FsState)
    → IsTidy s
    → IsKept result
    → IsTidy (state_after result s)
state_after-IsTidy (throw e) s h k = h
state_after-IsTidy (ok s') s h k = k

notify_from-IsTidy :
    (requests : List (ℕ × FsRequest)) (s : FsState)
    → All (λ r. IsSensible r.1) requests
    → IsTidy s
    → IsTidy (notify requests s)
unfolding notify
notify_from-IsTidy [] s m h = h
notify_from-IsTidy (request ∷ requests) s (m, ms) h =
    notify_from-IsTidy requests (state_after (process request.0 request.1 s) s) ms (
      state_after-IsTidy (process request.0 request.1 s) s h
        (process-IsKept request.0 request.1 s h m))

-- When the requests of one queue are served from the start, each to its end before the next, and
-- nothing is served on the other queue meanwhile, to whatever nodes and handles, and the backend does
-- not give its root as the node to be renamed: the root keeps its record, every record counts exactly
-- the records that have it as their parent and the open handles that refer to it, and the
-- parent of every record and the node of every handle have a record.
pub notify-IsBalanced :
    (requests : List (ℕ × FsRequest))
    → All (λ r. IsSensible r.1) requests
    → IsBalanced (notify requests new_state)
notify-IsBalanced requests m = (notify_from-IsTidy requests new_state m new_state-IsTidy).0

-- When the requests of one queue are served from the start, each to its end before the next, and
-- nothing is served on the other queue meanwhile, and the backend does not give its root as the node
-- to be renamed: every record but the root has a lookup, an open handle or a child, so that
-- what the guest has forgotten and closed is not kept.
pub notify-IsUsed :
    (requests : List (ℕ × FsRequest))
    → All (λ r. IsSensible r.1) requests
    → IsUsed (notify requests new_state)
notify-IsUsed requests m = (notify_from-IsTidy requests new_state m new_state-IsTidy).1
