-- ===== src/Access.antt =====
-- accesssession/registry.go: the live protocol sessions that an agent may be attached to. Each
-- operation runs under the registry's lock; a `nil` registry is not modelled. The protocol handlers
-- are interface values of the caller's, here numbers, `none` for `nil`.
pub mod Handles
pub mod Generations
pub mod References
use liaison.Base.{
  ℕ, suc, ◌+◌, ◌≤◌, String, ◌≡◌, Bool, true, false, not, ◌&&◌, ◌||◌, Option, none, some, List, [],
  ◌∷◌, if◌then◌else◌,
}
use liaison.Base.Eq.{◌==◌, string_eq, nat_eq}
use liaison.Base.Exec.{Result, ok, err, Exec, pure, gets, or_fail, fail_if, modify, ◌>>=◌, ◌>>◌}
use liaison.Base.Lists.{find}
use liaison.Base.Table.{Table, get, put, remove, values}
use liaison.Base.Words.{inc64}

-- `Protocol` is a Go string type.
pub record Descriptor : Type 0 where
  pub id : String
  pub user_id : ℕ
  pub access_id : ℕ
  pub application_id : ℕ
  pub protocol : String
  pub capabilities : List String
  pub generation : ℕ

pub record ResolveRequest : Type 0 where
  pub id : String
  pub user_id : ℕ
  pub access_id : ℕ
  pub application_id : ℕ
  pub protocol : String
  pub generation : ℕ

pub record Handle : Type 0 where
  pub descriptor : Descriptor
  pub terminal : Option ℕ
  pub data_source : Option ℕ
  pub desktop : Option ℕ

pub record AccessRegistry : Type 0 where
  pub handles : Table String Handle
  pub generations : Table String ℕ

abbrev pub new_access_registry : AccessRegistry
new_access_registry = record { handles = []; generations = [] }

pub data AccessError : Type 0 where
  canceled handle_not_found handle_mismatch : AccessError
  incomplete_descriptor missing_handler : AccessError

abbrev pub AccessAction : Type 0 → Type 0
AccessAction A = Exec AccessRegistry AccessError A

abbrev pub is_nil : Option ℕ → Bool
is_nil none = true
is_nil (some handler) = false

-- What Go reads from the map of generations at a missing key is 0.
abbrev pub or_zero : Option ℕ → ℕ
or_zero none = 0
or_zero (some n) = n

abbrev pub next_of : String → AccessRegistry → ℕ
next_of id r = inc64 (or_zero (get id r.generations))

abbrev pub at_next : ℕ → Handle → Handle
at_next generation handle = record handle {
  descriptor = record handle.descriptor { generation = generation };
}

abbrev pub publish_handle : ℕ → Handle → AccessRegistry → AccessRegistry
publish_handle generation handle r = record r {
  generations = put handle.descriptor.id generation r.generations;
  handles = put handle.descriptor.id (at_next generation handle) r.handles;
}

-- `Register`, which returns the descriptor with its generation.
unfoldable pub register_handle : Handle → AccessAction Descriptor
register_handle handle = do
  fail_if
      (handle.descriptor.id == ""
        || handle.descriptor.user_id == 0
        || handle.descriptor.access_id == 0
        || handle.descriptor.protocol == "")
      incomplete_descriptor
  fail_if (is_nil handle.terminal && is_nil handle.data_source && is_nil handle.desktop)
      missing_handler
  r ← gets (λ r. r)
  let generation = next_of handle.descriptor.id r
  modify (publish_handle generation handle)
  pure (at_next generation handle).descriptor

abbrev pub is_current : Option Handle → ℕ → Bool
is_current none generation = false
is_current (some current) generation = current.descriptor.generation == generation

-- The function that `Register` returns beside the descriptor, with what it has captured.
unfoldable pub unregister : String → ℕ → AccessRegistry → AccessRegistry
unregister id generation r =
    if is_current (get id r.handles) generation
    then record r { handles = remove id r.handles }
    else r

abbrev pub fits : ResolveRequest → Descriptor → Bool
fits request d =
    d.user_id == request.user_id
    && d.access_id == request.access_id
    && d.application_id == request.application_id
    && d.protocol == request.protocol
    && d.generation == request.generation

-- `canceled` tells whether the context has ended.
unfoldable pub resolve : Bool → ResolveRequest → AccessAction Handle
resolve ended request = do
  fail_if ended canceled
  r ← gets (λ r. r)
  handle ← or_fail (get request.id r.handles) handle_not_found
  fail_if (not (fits request handle.descriptor)) handle_mismatch
  pure handle

unfoldable pub describe : Bool → String → ℕ → AccessAction Descriptor
describe ended id user_id = do
  fail_if ended canceled
  r ← gets (λ r. r)
  handle ← or_fail (get id r.handles) handle_not_found
  fail_if (user_id == 0 || not (handle.descriptor.user_id == user_id)) handle_mismatch
  pure handle.descriptor

-- `PublicReference`, which hashes an ID, is the argument `public`. The source asks the handles of a
-- map in no fixed order; only handles with one reference could be mistaken for each other.
abbrev pub refers : (String → String) → String → ℕ → Handle → Bool
refers public reference user_id handle =
    handle.descriptor.user_id == user_id && public handle.descriptor.id == reference

unfoldable pub describe_reference : (String → String) → Bool → String → ℕ → AccessAction Descriptor
unfolding find
describe_reference public ended reference user_id = do
  fail_if ended canceled
  fail_if (user_id == 0) handle_not_found
  r ← gets (λ r. r)
  handle ← or_fail (find (refers public reference user_id) (values r.handles)) handle_not_found
  pure (record handle.descriptor { id = "" })

-- The request that names a registered descriptor.
abbrev pub request_of : Descriptor → ResolveRequest
request_of d = record {
  id = d.id;
  user_id = d.user_id;
  access_id = d.access_id;
  application_id = d.application_id;
  protocol = d.protocol;
  generation = d.generation;
}

-- The registries that registrations and unregistrations make of a given one, with the number of
-- registrations tried.
pub data AccessLater (r : AccessRegistry) : ℕ → AccessRegistry → Type 0 where
  stays : AccessLater r 0 r
  registers :
      {n : ℕ} {s : AccessRegistry}
      → AccessLater r n s
      → (handle : Handle) → AccessLater r (suc n) (register_handle handle s).1
  unregisters :
      {n : ℕ} {s : AccessRegistry}
      → AccessLater r n s
      → (id : String) (generation : ℕ) → AccessLater r n (unregister id generation s)
