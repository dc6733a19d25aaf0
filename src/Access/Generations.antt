-- ===== src/Access/Generations.antt =====
-- The generations of session IDs (accesssession/registry.go) only grow, so a stale request fails.
use liaison.Base.{
  ℕ, suc, ◌+◌, ◌<◌, ◌≤◌, ◌^◌, String, ◌≡◌, refl, Bool, true, false, Option, none, some, arith,
  if_rule, sym, ap, ◌∙◌, Option-cases, inl, inr, nat_beq_iff,
}
use text.Mathlib.TextEquality.{eq_iff}
use liaison.Base.Eq.{string_eq, nat_eq}
use liaison.Base.Exec.{Result, ok, err}
use liaison.Base.Table.{get, get-put, get-remove}
use liaison.Access.{
  Descriptor, publish_handle, ResolveRequest, Handle, AccessRegistry, AccessError, AccessLater,
  stays, registers, unregisters, register_handle, unregister, resolve, next_of, at_next, or_zero,
  is_current,
}
use liaison.Access.Handles.{register_handle_cases}

-- The generation of a live handle, 0 for none.
abbrev pub live_generation : Option Handle → ℕ
live_generation none = 0
live_generation (some h) = h.descriptor.generation

-- The generation of an ID is above all that were given out before, and the live handle, if there is
-- one, has one that is not below the bound.
abbrev pub Above : String → ℕ → ℕ → AccessRegistry → Type 0
Above id low n s =
    (low ≤ or_zero (get id s.generations))
    × (or_zero (get id s.generations) ≤ low + n)
    × ((h : Handle) → get id s.handles ≡ some h → low ≤ h.descriptor.generation)

later-Above :
    {r s : AccessRegistry} {n : ℕ} (id : String) (low : ℕ)
    → AccessLater r n s
    → low + n < 2 ^ 64
    → Above id low 0 r
    → Above id low n s
unfolding unregister
later-Above id low stays small a = a
later-Above id low (registers {n} {s} l handle) small a =
    let i = later-Above id low l (ground arith) a in
    let g = next_of handle.descriptor.id s in
    register_handle_cases s (λ o. Above id low (suc n) o.1) handle (λ _. (i.0, ground arith, i.2))
      (
        ground (
          arith,
          get-put handle.descriptor.id id g s.generations,
          eq_iff handle.descriptor.id id,
          i,
        ),
        ground (
          arith,
          get-put handle.descriptor.id id g s.generations,
          eq_iff handle.descriptor.id id,
          i,
        ),
        λ h at. ground (
          arith,
          get-put handle.descriptor.id id (at_next g handle) s.handles,
          eq_iff handle.descriptor.id id,
          i.0,
          i.1,
          i.2 h,
        ),
      )
later-Above id low (unregisters {n} {s} l j generation) small a =
    let i = later-Above id low l small a in
    if_rule (Above id low n) (is_current (get j s.handles) generation) _ _
      (λ _. (i.0, i.1, λ h at. i.2 h (ground (arith, get-remove j id s.handles, eq_iff j id))))
      λ _. i

abbrev pub is_resolved : Result AccessError Handle → Bool
is_resolved (ok h) = true
is_resolved (err x) = false

below-resolve :
    (request : ResolveRequest) (low n : ℕ) (s : AccessRegistry)
    → Above request.id low n s
    → request.generation < low
    → is_resolved (resolve false request s).0 ≡ false
unfolding resolve
below-resolve request low n s a below = elim (Option-cases (get request.id s.handles)) [
  | inl none_there ↦ rw none_there refl
  | inr (h, at) ↦
      rw at (ground (arith, a.2 h at, nat_beq_iff h.descriptor.generation request.generation))
]

-- If a session is registered with descriptor d, then a request under its ID with an earlier
-- generation never resolves again: not after any number n of further registrations and any
-- unregistrations, as long as the generation of d and n together stay below 2^64.
pub stale_never_resolves :
    (handle : Handle) (r : AccessRegistry) (d : Descriptor) (n : ℕ) (s : AccessRegistry)
    (request : ResolveRequest)
    → (register_handle handle r).0 ≡ ok d
    → AccessLater (register_handle handle r).1 n s
    → d.generation + n < 2 ^ 64
    → request.id ≡ d.id
    → request.generation < d.generation
    → is_resolved (resolve false request s).0 ≡ false
stale_never_resolves handle r d n s request h later small same below =
    below-resolve request d.generation n s
      (later-Above request.id d.generation later small (
        register_handle_cases r (λ o. o.0 ≡ ok d → Above request.id d.generation 0 o.1) handle
          (λ x e. absurd (cc)) (λ e. registered (cc)) h))
      below
  where
    registered :
        (at_next (next_of handle.descriptor.id r) handle).descriptor ≡ d
        → Above request.id d.generation 0 (publish_handle (next_of handle.descriptor.id r) handle r)
    registered own =
        let g = next_of handle.descriptor.id r in
        let generation : g ≡ d.generation = ap (λ x. x.generation) own in
        let id : handle.descriptor.id ≡ request.id = ap (λ x. x.id) own ∙ sym same in
        let counted = get-put handle.descriptor.id request.id g r.generations in
        (
          ground (arith, counted, eq_iff handle.descriptor.id request.id),
          ground (arith, counted, eq_iff handle.descriptor.id request.id),
          λ h at. ground (
            arith,
            get-put handle.descriptor.id request.id (at_next g handle) r.handles,
            eq_iff handle.descriptor.id request.id,
          ),
        )
