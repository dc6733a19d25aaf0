-- ===== src/Access/References.antt =====
-- What a public reference gives away (accesssession/registry.go).
use liaison.Base.{
  ℕ, String, ◌≡◌, refl, Bool, true, ◌&&◌, Option, none, some, List, [], ◌∷◌, arith, inl, inr,
  Bool-cases,
}
use mathlib.Core.Path.{subst}
use liaison.Base.Eq.{◌==◌, string_eq, nat_eq}
use liaison.Base.Exec.{Result, ok, err}
use liaison.Base.Exec.Rules.{fail_if_rule, or_fail_rule}
use liaison.Base.Lists.{find}
use liaison.Base.Table.{values}
use liaison.Access.{Descriptor, Handle, AccessRegistry, AccessError, refers, describe_reference}

-- A description with no ID of a handle, of a handle of the user; an error shows nothing.
abbrev pub shows_own : ℕ → Result AccessError Descriptor → Bool
shows_own user_id (ok d) = d.id == "" && d.user_id == user_id
shows_own user_id (err x) = true

abbrev found_passes : (Handle → Bool) → Option Handle → Bool
found_passes test none = true
found_passes test (some h) = test h

-- What a search finds passes the test, and it finds something if something does.
find_lem : (test : Handle → Bool) (hs : List Handle) → found_passes test (find test hs) ≡ true
unfolding find
find_lem test [] = refl
find_lem test (h ∷ hs) = elim (Bool-cases (test h)) [
  | inl e ↦ rw e e
  | inr e ↦ rw e (find_lem test hs)
]

-- Whatever reference a user asks for, a description that is returned holds no ID of a handle, and
-- the handle is the user's own.
pub described_is_own :
    (public : String → String) (ended : Bool) (reference : String) (user_id : ℕ)
    (r : AccessRegistry)
    → shows_own user_id (describe_reference public ended reference user_id r).0 ≡ true
unfolding describe_reference
described_is_own public ended reference user_id r =
    let Q : Result AccessError Descriptor × AccessRegistry → Type 0 =
      λ o. shows_own user_id o.0 ≡ true in
    fail_if_rule Q ended _ refl λ _. fail_if_rule Q (user_id == 0) _ refl λ _.
      or_fail_rule Q (find (refers public reference user_id) (values r.handles)) _ refl
        λ handle found.
          let passed : refers public reference user_id handle ≡ true =
            subst (λ o. found_passes (refers public reference user_id) o ≡ true) found
              (find_lem (refers public reference user_id) (values r.handles)) in
          ground (arith, passed)
