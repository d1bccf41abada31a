-- ===== src/Virtio/Fs.antt =====
-- packages/kernel/src/virtio/fs.ts: the table of nodes that the guest knows, with their counts of
-- lookups, handles and children, the open handles, and what the requests do to them. A map is a
-- function on its keys, and a record's id is its key; nodes and handles of the backend are numbers,
-- and the root node is 0. What the backend returned is an argument.
pub mod Counting
pub mod Balance
pub mod Debts
pub mod Presence
pub mod Growth
pub mod Collection
pub mod Moving
pub mod Effects
pub mod Requests
pub mod Leaks
pub mod Tidy
pub mod Buffers
use distro.Common.{
  ℕ, zero, suc, ◌+◌, ◌-◌, Bool, true, false, not, ◌&&◌, ◌||◌, List, [], ◌∷◌, Option, none, some,
  Result, ok, throw, ◌>>=◌, leb, ◌==◌, if◌then◌else◌, map,
}

-- `FSError`, by its code.
pub data FsError : Type 0 where
  enoent ebadf eio : FsError

pub record NodeRecord : Type 0 where
  pub node : ℕ
  pub parent : ℕ
  pub lookups : ℕ
  pub handles : ℕ
  pub children : ℕ

pub record HandleRecord : Type 0 where
  pub node : ℕ
  pub handle : ℕ
  pub directory : Bool

pub record FsState : Type 0 where
  pub records : ℕ → Option NodeRecord
  pub handles : ℕ → Option HandleRecord
  pub next_nodeid : ℕ
  pub next_handle : ℕ
  pub finalized : Bool

abbrev pub root : NodeRecord
root = record { node = 0; parent = 1; lookups = 1; handles = 0; children = 0 }

abbrev pub new_state : FsState
new_state = record {
  records = λ id. if id == 1 then some root else none;
  handles = λ fh. none;
  next_nodeid = 2;
  next_handle = 1;
  finalized = false;
}

-- A map with another value at a key.
unfoldable pub put {ℓ} : {A : Type ℓ} → ℕ → Option A → (ℕ → Option A) → ℕ → Option A
put key value m other = if other == key then value else m other

abbrev pub option_map : (NodeRecord → NodeRecord) → Option NodeRecord → Option NodeRecord
option_map f none = none
option_map f (some r) = some (f r)

-- An assignment to the fields of the record with an id.
abbrev pub assign : ℕ → (NodeRecord → NodeRecord) → FsState → FsState
assign id f s = record s { records = put id (option_map f (s.records id)) s.records }

abbrev pub add_lookup : NodeRecord → NodeRecord
add_lookup r = record r { lookups = r.lookups + 1 }

abbrev pub add_child : NodeRecord → NodeRecord
add_child r = record r { children = r.children + 1 }

abbrev pub drop_child : NodeRecord → NodeRecord
drop_child r = record r { children = r.children - 1 }

abbrev pub drop_lookups : ℕ → NodeRecord → NodeRecord
drop_lookups count r = record r { lookups = if leb r.lookups count then 0 else r.lookups - count }

abbrev pub is_node : ℕ → Option NodeRecord → Bool
is_node node none = false
is_node node (some r) = r.node == node

-- `by_node.get`: the ids below `n` are searched.
unfoldable pub by_node : ℕ → ℕ → FsState → Option ℕ
by_node zero node s = none
by_node (suc n) node s =
    let rest = by_node n node s in if is_node node (s.records n) then some n else rest

abbrev pub fresh_record : ℕ → ℕ → NodeRecord
fresh_record node parent = record {
  node = node;
  parent = parent;
  lookups = 0;
  handles = 0;
  children = 0;
}

unfoldable pub record_found : Option ℕ → ℕ → ℕ → FsState → FsState × ℕ
record_found (some id) node parent s = (s, id)
record_found none node parent s = (
  assign parent add_child (record s {
    records = put s.next_nodeid (some (fresh_record node parent)) s.records;
    next_nodeid = suc s.next_nodeid;
  }),
  s.next_nodeid,
)

unfoldable pub record_for_node : ℕ → ℕ → FsState → FsState × ℕ
record_for_node node parent s = record_found (by_node s.next_nodeid node s) node parent s

abbrev pub is_unused : ℕ → NodeRecord → Bool
is_unused id r = not (id == 1) && ((r.lookups == 0) && ((r.handles == 0) && (r.children == 0)))

abbrev pub delete_record : ℕ → NodeRecord → FsState → FsState
delete_record id r s = assign r.parent drop_child (record s { records = put id none s.records })

-- `collect_record`, which goes on with the parent. Every call but the last deletes a record, so that
-- as many rounds as ids are enough.
unfoldable pub collect_loop : ℕ → ℕ → FsState → FsState
collect_loop zero id s = s
collect_loop (suc fuel) id s = elim (s.records id) [
  | none ↦ s
  | some r ↦
      (let rest = collect_loop fuel r.parent (delete_record id r s) in
        if is_unused id r then rest else s)
]

unfoldable pub collect_record : ℕ → FsState → FsState
collect_record id s = collect_loop s.next_nodeid id s

unfoldable pub forget : ℕ → ℕ → FsState → FsState
forget id count s = collect_record id (assign id (drop_lookups count) s)

abbrev pub add_open : NodeRecord → NodeRecord
add_open r = record r { handles = r.handles + 1 }

abbrev pub drop_open : NodeRecord → NodeRecord
drop_open r = record r { handles = r.handles - 1 }

unfoldable pub add_handle : ℕ → ℕ → Bool → FsState → FsState
add_handle id handle directory s = assign id add_open (record s {
  handles =
      put s.next_handle (some (record { node = id; handle = handle; directory = directory }))
        s.handles;
  next_handle = suc s.next_handle;
})

unfoldable pub remove_handle : ℕ → HandleRecord → FsState → FsState
remove_handle fh h s =
    collect_record h.node (assign h.node drop_open (record s { handles = put fh none s.handles }))

abbrev pub node_found : Option NodeRecord → Result FsError NodeRecord
node_found none = throw enoent
node_found (some r) = ok r

abbrev pub node_record : ℕ → FsState → Result FsError NodeRecord
node_record id s = node_found (s.records id)

-- `handle_record` with the directory flag and the node that it must have.
abbrev pub same_flag : Bool → Bool → Bool
same_flag a b = (a && b) || (not a && not b)

abbrev pub is_right : Option Bool → Option ℕ → HandleRecord → Bool
is_right none none h = true
is_right none (some id) h = h.node == id
is_right (some directory) none h = same_flag h.directory directory
is_right (some directory) (some id) h = same_flag h.directory directory && (h.node == id)

abbrev pub handle_found : Option HandleRecord → Option Bool → Option ℕ → Result FsError HandleRecord
handle_found none directory target = throw ebadf
handle_found (some h) directory target = if is_right directory target h then ok h else throw ebadf

-- `handle_record`, with the directory flag and the node that it must have, where they are defined.
abbrev pub handle_record : ℕ → Option Bool → Option ℕ → FsState → Result FsError HandleRecord
handle_record fh directory target s = handle_found (s.handles fh) directory target

-- A node that the backend found or made under a parent, with one more lookup.
unfoldable pub looked_up : ℕ → ℕ → FsState → FsState × ℕ
looked_up node parent s =
    let found = record_for_node node parent s in (assign found.1 add_lookup found.0, found.1)

abbrev pub keep_known : FsState → List (ℕ × ℕ) → List (ℕ × ℕ)
keep_known s [] = []
keep_known s (entry ∷ entries) = elim (s.records entry.0) [
  | none ↦ keep_known s entries
  | some r ↦ entry ∷ keep_known s entries
]

abbrev pub forget_all : List (ℕ × ℕ) → FsState → FsState
forget_all [] s = s
forget_all (entry ∷ entries) s = forget_all entries (forget entry.0 entry.1 s)

abbrev pub move_record : ℕ → ℕ → NodeRecord → FsState → FsState
move_record id new_parent r s = collect_record r.parent (
    assign new_parent add_child
      (assign id (λ q. record q { parent = new_parent }) (assign r.parent drop_child s)))

-- The effect of a rename: the record of the node that moved, if it has one.
unfoldable pub moved_from : Option ℕ → ℕ → FsState → FsState
moved_from none new_parent s = s
moved_from (some id) new_parent s = elim (s.records id) [
  | none ↦ s
  | some r ↦ if r.parent == new_parent then s else move_record id new_parent r s
]

-- The records of the entries of a directory, and their ids.
abbrev pub list_nodes : List ℕ → ℕ → FsState → FsState × List ℕ
list_nodes [] parent s = (s, [])
list_nodes (node ∷ nodes) parent s =
    let first = record_for_node node parent s in
    let rest = list_nodes nodes parent first.0 in (rest.0, first.1 ∷ rest.1)

abbrev pub collect_all : List ℕ → FsState → FsState
collect_all [] s = s
collect_all (id ∷ ids) s = collect_all ids (collect_record id s)

-- The requests that change the table, with what the backend returned. One that the backend
-- refuses before the table changes is none; that `getattr` throws afterwards changes nothing.
pub data FsRequest : Type 0 where
  lookup : Option ℕ → FsRequest
  forget_node : ℕ → FsRequest
  batch_forget : List (ℕ × ℕ) → FsRequest
  make_node : ℕ → FsRequest
  open_node : ℕ → Bool → FsRequest
  create : ℕ → ℕ → FsRequest
  rename : ℕ → Option ℕ → FsRequest
  release : ℕ → Bool → FsRequest
  readdir : ℕ → List ℕ → FsRequest
  destroy : FsRequest

abbrev pub remove_found : ℕ → Option HandleRecord → FsState → FsState
remove_found fh none s = s
remove_found fh (some h) s = remove_handle fh h s

-- The handles below `n` that are open.
abbrev pub finalize_loop : ℕ → FsState → FsState
finalize_loop zero s = s
finalize_loop (suc n) s = let rest = finalize_loop n s in remove_found n (rest.handles n) rest

unfoldable pub finalize : FsState → FsState
finalize s = if s.finalized then s else finalize_loop s.next_handle (record s { finalized = true })

abbrev pub moved_record : ℕ → ℕ → Option ℕ → FsState → Option ℕ
moved_record id new_parent none s = none
moved_record id new_parent (some moved) s =
    if id == new_parent then none else by_node s.next_nodeid moved s

-- The node of the header: none for the id 0.
abbrev pub header_node : ℕ → FsState → Result FsError (Option ℕ)
header_node id s = if id == 0 then ok none else node_record id s >>= λ r. ok (some id)

-- A use of the node, which is a type error where there is none.
abbrev pub required : Option ℕ → Result FsError ℕ
required none = throw eio
required (some id) = ok id

abbrev pub serve_lookup : Option ℕ → Option ℕ → FsState → Result FsError FsState
serve_lookup target none s = required target >>= λ id. throw enoent
serve_lookup target (some found) s = required target >>= λ id. ok (looked_up found id s).0

abbrev pub serve_forget : Option ℕ → ℕ → FsState → Result FsError FsState
serve_forget target count s = required target >>= λ id. ok (forget id count s)

abbrev pub serve_batch_forget : List (ℕ × ℕ) → FsState → FsState
serve_batch_forget entries s = forget_all (keep_known s entries) s

-- SYMLINK and MKDIR.
abbrev pub serve_make : Option ℕ → ℕ → FsState → Result FsError FsState
serve_make target made s = required target >>= λ id. ok (looked_up made id s).0

abbrev pub serve_open : Option ℕ → ℕ → Bool → FsState → Result FsError FsState
serve_open target handle directory s =
    required target >>= λ id. ok (add_handle id handle directory s)

abbrev pub serve_create : Option ℕ → ℕ → ℕ → FsState → Result FsError FsState
serve_create target created handle s = required target >>= λ id.
    (let found = looked_up created id s in ok (add_handle found.1 handle false found.0))

abbrev pub serve_rename : Option ℕ → ℕ → Option ℕ → FsState → Result FsError FsState
serve_rename target newdir moved s = node_record newdir s >>= λ new_parent.
    (required target >>= λ id. ok (moved_from (moved_record id newdir moved s) newdir s))

abbrev pub serve_release : Option ℕ → ℕ → Bool → FsState → Result FsError FsState
serve_release target fh directory s =
    handle_record fh (some directory) target s >>= λ h. ok (remove_handle fh h s)

-- READDIR, as far as it changes the table.
abbrev pub serve_readdir : Option ℕ → ℕ → List ℕ → FsState → Result FsError FsState
serve_readdir target fh nodes s = handle_record fh (some true) target s >>= λ h.
    (let listed = list_nodes nodes h.node s in ok (collect_all listed.1 listed.0))

-- The cases of `process` that change the table.
unfoldable pub serve : Option ℕ → FsRequest → FsState → Result FsError FsState
serve target (lookup found) s = serve_lookup target found s
serve target (forget_node count) s = serve_forget target count s
serve target (batch_forget entries) s = ok (serve_batch_forget entries s)
serve target (make_node made) s = serve_make target made s
serve target (open_node handle directory) s = serve_open target handle directory s
serve target (create created handle) s = serve_create target created handle s
serve target (rename newdir moved) s = serve_rename target newdir moved s
serve target (release fh directory) s = serve_release target fh directory s
serve target (readdir fh nodes) s = serve_readdir target fh nodes s
serve target destroy s = ok (finalize s)

-- `process`: a request that fails leaves the table as it was.
unfoldable pub process : ℕ → FsRequest → FsState → Result FsError FsState
process id request s = header_node id s >>= λ target. serve target request s

abbrev pub state_after : Result FsError FsState → FsState → FsState
state_after (throw e) s = s
state_after (ok s') s = s'

-- The requests of one queue, each served to its end before the next, as the loop of `notify` awaits
-- them. What the device's other queue may do while a request awaits the backend is left out.
unfoldable pub notify : List (ℕ × FsRequest) → FsState → FsState
notify [] s = s
notify (request ∷ requests) s = notify requests (state_after (process request.0 request.1 s) s)
