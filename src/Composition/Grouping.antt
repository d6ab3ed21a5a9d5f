-- ===== src/Composition/Grouping.antt =====
-- The sets of observations are the observations by key, in their order.
use sort4circ.Prelude.{
  ◌≡◌, refl, sym, ap, ◌∙◌, String, Bool, true, false, List, [], ◌∷◌, ◌++◌, ◌&&◌, ◌==◌, Result, ok,
  ◌>>=◌, on_ok, ok_inj, Bool-cases, inl, inr, eq_iff, eq_refl, if◌then◌else◌,
}
use mathlib.Core.List.{append_assoc, append-nil}
use sort4circ.Reasons.{Error}
use sort4circ.Json.{Items, Dict, nil, cons, get?}
use sort4circ.Json.Shape.{as_dict, items_or_empty}
use sort4circ.Composition.{
  SetKey, same_set, set_key, Groups, add_to_group, group_all, observation_sets,
}

same_set_refl : (a : SetKey) → same_set a a ≡ true
unfolding same_set
same_set_refl a =
    rw (eq_refl a.organisation, eq_refl a.system, eq_refl a.method, eq_refl a.observed_at) refl

both_true : (a b : Bool) → (a && b) ≡ true → (a ≡ true) × (b ≡ true)
both_true true true h = (refl, refl)
both_true true false h = absurd (cc)
both_true false b h = absurd (cc)

same_set-true : (a b : SetKey) → same_set a b ≡ true → a ≡ b
unfolding same_set
same_set-true a b h =
    let (p, h₁) =
      both_true (a.organisation == b.organisation)
        (a.system == b.system && (a.method == b.method && a.observed_at == b.observed_at)) h in
    let (q, h₂) =
      both_true (a.system == b.system) (a.method == b.method && a.observed_at == b.observed_at)
        h₁ in
    let (r, t) = both_true (a.method == b.method) (a.observed_at == b.observed_at) h₂ in
    ap
      (λ (x : String). record {
        organisation = x;
        system = a.system;
        method = a.method;
        observed_at = a.observed_at;
      })
      ((eq_iff a.organisation b.organisation).0 p)
    ∙ ap
        (λ (x : String). record {
          organisation = b.organisation;
          system = x;
          method = a.method;
          observed_at = a.observed_at;
        })
        ((eq_iff a.system b.system).0 q)
    ∙ ap
        (λ (x : String). record {
          organisation = b.organisation;
          system = b.system;
          method = x;
          observed_at = a.observed_at;
        })
        ((eq_iff a.method b.method).0 r)
    ∙ ap
        (λ (x : String). record {
          organisation = b.organisation;
          system = b.system;
          method = b.method;
          observed_at = x;
        })
        ((eq_iff a.observed_at b.observed_at).0 t)

-- The observations of a key in the sets, none if the key has no set.
unfoldable pub members : SetKey → Groups → List Dict
members key [] = []
members key ((k, xs) ∷ groups) =
    let rest = members key groups in if same_set k key then xs else rest

abbrev pub joining : SetKey → SetKey → Dict → List Dict
joining k key x = if same_set k key then x ∷ [] else []

members-add :
    (key k : SetKey) (x : Dict) (groups : Groups)
    → members key (add_to_group k x groups) ≡ members key groups ++ joining k key x
unfolding members add_to_group
members-add key k x [] = refl
members-add key k x ((j, xs) ∷ groups) = elim (Bool-cases (same_set j k)) [
  | inl p ↦ rw p (
      same_group (same_set j key) (same_set k key) (members key groups)
        (ap (λ (i : SetKey). same_set i key) (same_set-true j k p)))
  | inr p ↦ rw p (elim (Bool-cases (same_set j key)) [
    | inl q ↦ rw (q, other_key p q) (sym (append-nil xs))
    | inr q ↦ rw q (members-add key k x groups)
  ])
]
  where
    same_group :
        (a b : Bool) (rest : List Dict)
        → a ≡ b
        → (if a then xs ++ x ∷ [] else rest)
          ≡ (if a then xs else rest) ++ (if b then x ∷ [] else [])
    same_group true true rest e = refl
    same_group false false rest e = sym (append-nil rest)
    same_group true false rest e = absurd (cc)
    same_group false true rest e = absurd (cc)

    distinct : {b : Bool} → b ≡ true → b ≡ false → ⊥
    distinct u v = cc (u, v)

    other_key : same_set j k ≡ false → same_set j key ≡ true → same_set k key ≡ false
    other_key p q = elim (Bool-cases (same_set k key)) [
      | inl r ↦ absurd (distinct (ap (same_set j) (same_set-true k key r) ∙ q) p)
      | inr r ↦ r
    ]

-- The observations of a list whose key is the given one, in their order.
unfoldable pub with_key : SetKey → Items → Result Error (List Dict)
with_key key nil = ok []
with_key key (cons item xs) = do
  observation ← as_dict item
  k ← set_key observation
  rest ← with_key key xs
  ok (joining k key observation ++ rest)

group_all-members :
    (key : SetKey) (xs : Items) (groups out : Groups) (found : List Dict)
    → group_all xs groups ≡ ok out
    → with_key key xs ≡ ok found
    → members key out ≡ members key groups ++ found
unfolding group_all with_key
group_all-members key nil groups out found g w =
    rw (← ok_inj g, ← ok_inj w) (sym (append-nil (members key groups)))
group_all-members key (cons item xs) groups out found g w =
    on_ok (as_dict item) _ w λ observation p w₁. on_ok (set_key observation) _ w₁ λ k q w₂.
      on_ok (with_key key xs) _ w₂ λ rest r w₃.
        let g' = rw (p, q) at g in
        rw
          (
            group_all-members key xs (add_to_group k observation groups) out rest g' r,
            members-add key k observation groups,
            ← ok_inj w₃,
          )
          (append_assoc (members key groups) (joining k key observation) rest)

-- When a record's observations can be grouped, the set of a key holds exactly the observations of
-- the record with that organisation, system, method and time, in their order; for a key that no
-- observation has there is none.
pub observation_sets-members :
    (key : SetKey) (source : Dict) (xs : Items) (out : Groups) (found : List Dict)
    → items_or_empty (get? "materialObservations" source) ≡ ok xs
    → observation_sets source ≡ ok out
    → with_key key xs ≡ ok found
    → members key out ≡ found
unfolding observation_sets members
observation_sets-members key source xs out found i g w =
    group_all-members key xs [] out found (rw i at g) w
