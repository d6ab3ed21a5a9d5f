-- ===== src/Api/Scopes.antt =====
-- Two requests of different callers, operations, resources or keys have different scoped keys.
use Prim.Native.Char.{code, Char}
use Prim.Native.String.append
use mathlib.Core.List.{append_assoc}
use text.Mathlib.TextEquality.{Char-path}
use text.Mathlib.TextLemmas.{append_cancel_left}
use sort4circ.Prelude.{
  ok, on_ok, ok_inj, eq_false_of_ne, ◌≢◌, ℕ, ◌≡◌, refl, sym, ap, ap₂, subst, ◌∙◌, String, Option,
  none, some, [], ◌∷◌, ◌++◌, arith, codes, Text,
}
use sort4circ.Access.{
  Principal, Role, role_name, role_named, public, consumer, brand, collector, sorting_operator,
  pssr_system, recycler, authority, administrator, integrity_verifier,
}
use sort4circ.Api.Keys.{ascii_escape, ascii_escapes, quoted, quoted_or_null, scoped_key}
use sort4circ.Canonical.Serialise.{canonicalise}
use sort4circ.Store.State.{Store}
use sort4circ.Store.Idempotency.{idempotent, remember}
use sort4circ.Store.Retries.{idempotent-other}
use sort4circ.Json.{Json}
use sort4circ.Env.{Env}
use sort4circ.Api.Hex.{codes-append, codes_inj}
use sort4circ.Api.Escapes.{read_char, read_char-quote, read_char-ascii_escape}

some_inj {ℓ} : {A : Type ℓ} {a b : A} → Path (Option A) (some a) (some b) → a ≡ b
some_inj h = cc h

-- No escape begins with a quotation mark.
escape-ne-quote :
    (c : Char) (t y : Text)
    → ¬ (codes (ascii_escape (code c) (String.◌∷◌ c String.[])) ++ t ≡ 34 ∷ y)
unfolding ascii_escape
escape-ne-quote c t y h =
    let e : code c ≡ 34 =
      ap (λ (x : ℕ × Text). x.0)
        (sym (read_char-ascii_escape c t) ∙ ap read_char h ∙ read_char-quote y) in
    let h' : 92 ∷ 34 ∷ t ≡ 34 ∷ y =
      subst (λ n. codes (ascii_escape n (String.◌∷◌ c String.[])) ++ t ≡ 34 ∷ y) e h in
    absurd (ground arith)

escapes-cons :
    (c : Char) (s : String) (x : Text)
    → codes (ascii_escapes (String.◌∷◌ c s)) ++ x
      ≡ codes (ascii_escape (code c) (String.◌∷◌ c String.[])) ++ (codes (ascii_escapes s) ++ x)
unfolding ascii_escapes
escapes-cons c s x =
    ap (λ (t : Text). t ++ x) (codes-append (ascii_escape (code c) (String.◌∷◌ c String.[])) _)
    ∙ append_assoc (codes (ascii_escape (code c) (String.◌∷◌ c String.[]))) _ x

escapes-nil : (x : Text) → codes (ascii_escapes String.[]) ++ x ≡ x
unfolding ascii_escapes
escapes-nil x = refl

-- A quoted text ends at its closing mark, and determines the text.
escapes_inj :
    (s t : String) (x y : Text)
    → codes (ascii_escapes s) ++ 34 ∷ x ≡ codes (ascii_escapes t) ++ 34 ∷ y
    → (s ≡ t) × (x ≡ y)
escapes_inj String.[] String.[] x y h =
    let h' : 34 ∷ x ≡ 34 ∷ y = sym (escapes-nil (34 ∷ x)) ∙ h ∙ escapes-nil (34 ∷ y) in
    (refl, cc h')
escapes_inj String.[] (String.◌∷◌ d t) x y h =
    absurd
      (escape-ne-quote d _ x (sym (sym (escapes-nil (34 ∷ x)) ∙ h ∙ escapes-cons d t (34 ∷ y))))
escapes_inj (String.◌∷◌ c s) String.[] x y h =
    absurd (escape-ne-quote c _ y (sym (escapes-cons c s (34 ∷ x)) ∙ h ∙ escapes-nil (34 ∷ y)))
escapes_inj (String.◌∷◌ c s) (String.◌∷◌ d t) x y h =
    let read : Path (ℕ × Text) (code c, codes (ascii_escapes s) ++ 34 ∷ x)
        (code d, codes (ascii_escapes t) ++ 34 ∷ y) =
      sym (read_char-ascii_escape c (codes (ascii_escapes s) ++ 34 ∷ x))
      ∙ ap read_char (sym (escapes-cons c s (34 ∷ x)) ∙ h ∙ escapes-cons d t (34 ∷ y))
      ∙ read_char-ascii_escape d (codes (ascii_escapes t) ++ 34 ∷ y) in
    let (e, r) = escapes_inj s t x y (ap (λ (p : ℕ × Text). p.1) read) in
    (ap₂ String.◌∷◌ (Char-path c d (ap (λ (p : ℕ × Text). p.0) read)) e, r)

quoted-codes :
    (s u : String)
    → codes (Prim.Native.String.◌++◌ (quoted s) u) ≡ 34 ∷ (codes (ascii_escapes s) ++ 34 ∷ codes u)
unfolding quoted
quoted-codes s u =
    codes-append (quoted s) u
    ∙ ap (λ (t : Text). t ++ codes u)
        (codes-append "\"" _ ∙ ap (◌∷◌ 34) (codes-append (ascii_escapes s) "\""))
    ∙ ap (◌∷◌ 34) (append_assoc (codes (ascii_escapes s)) (34 ∷ []) (codes u))

quoted_inj :
    (s t u v : String)
    → Prim.Native.String.◌++◌ (quoted s) u ≡ Prim.Native.String.◌++◌ (quoted t) v
    → (s ≡ t) × (u ≡ v)
quoted_inj s t u v h =
    let h' : 34 ∷ (codes (ascii_escapes s) ++ 34 ∷ codes u)
        ≡ 34 ∷ (codes (ascii_escapes t) ++ 34 ∷ codes v) =
      sym (quoted-codes s u) ∙ ap codes h ∙ quoted-codes t v in
    let (e, r) = escapes_inj s t (codes u) (codes v) (cc h') in (e, codes_inj u v r)

null-ne-quoted :
    (s u v : String) → ¬ (Prim.Native.String.◌++◌ "null" u ≡ Prim.Native.String.◌++◌ (quoted s) v)
null-ne-quoted s u v h =
    let h' : 110 ∷ 117 ∷ 108 ∷ 108 ∷ codes u ≡ 34 ∷ (codes (ascii_escapes s) ++ 34 ∷ codes v) =
      sym (codes-append "null" u) ∙ ap codes h ∙ quoted-codes s v in
    absurd (ground arith)

quoted_or_null_inj :
    (s t : Option String) (u v : String)
    → Prim.Native.String.◌++◌ (quoted_or_null s) u ≡ Prim.Native.String.◌++◌ (quoted_or_null t) v
    → (s ≡ t) × (u ≡ v)
quoted_or_null_inj none none u v h = (refl, append_cancel_left "null" u v h)
quoted_or_null_inj none (some t) u v h = absurd (null-ne-quoted t u v h)
quoted_or_null_inj (some s) none u v h = absurd (null-ne-quoted s v u (sym h))
quoted_or_null_inj (some s) (some t) u v h = let (e, r) = quoted_inj s t u v h in (ap some e, r)

pub role_named-role_name : (r : Role) → role_named (role_name r) ≡ some r
unfolding role_named role_name
role_named-role_name public = refl
role_named-role_name consumer = refl
role_named-role_name brand = refl
role_named-role_name collector = refl
role_named-role_name sorting_operator = refl
role_named-role_name pssr_system = refl
role_named-role_name recycler = refl
role_named-role_name authority = refl
role_named-role_name administrator = refl
role_named-role_name integrity_verifier = refl

role_name_inj : (r t : Role) → role_name r ≡ role_name t → r ≡ t
role_name_inj r t h =
    some_inj (sym (role_named-role_name r) ∙ ap role_named h ∙ role_named-role_name t)

-- The parts of a scoped key, one by one.
pub record SameScope (p q : Principal)
    (key other operation other_operation resource other_resource : String) : Type 0 where
  pub subject : p.subject ≡ q.subject
  pub organisation : p.organisation_id ≡ q.organisation_id
  pub role : p.role ≡ q.role
  pub operation_same : operation ≡ other_operation
  pub resource_same : resource ≡ other_resource
  pub key_same : key ≡ other

scoped_key_inj :
    (p q : Principal) (key other operation other_operation resource other_resource : String)
    → scoped_key p (some key) operation resource
      ≡ scoped_key q (some other) other_operation other_resource
    → SameScope p q key other operation other_operation resource other_resource
unfolding scoped_key
scoped_key_inj p q key other operation other_operation resource other_resource h =
    let (subject, h₁) =
      quoted_inj p.subject q.subject _ _ (append_cancel_left "[" _ _ (some_inj h)) in
    let (organisation, h₂) =
      quoted_or_null_inj p.organisation_id q.organisation_id _ _ (append_cancel_left ", " _ _ h₁) in
    let (role, h₃) =
      quoted_inj (role_name p.role) (role_name q.role) _ _ (append_cancel_left ", " _ _ h₂) in
    let (by_operation, h₄) =
      quoted_inj operation other_operation _ _ (append_cancel_left ", " _ _ h₃) in
    let (by_resource, h₅) =
      quoted_inj resource other_resource _ _ (append_cancel_left ", " _ _ h₄) in
    let (by_key, h₆) = quoted_inj key other _ _ (append_cancel_left ", " _ _ h₅) in
    record {
      subject = subject;
      organisation = organisation;
      role = role_name_inj p.role q.role role;
      operation_same = by_operation;
      resource_same = by_resource;
      key_same = by_key;
    }

remember-other :
    (env : Env) (stored looked : Option String) (payload response again : Json) (s t : Store)
    → remember env stored payload response s ≡ ok t
    → stored ≢ looked
    → idempotent env looked again t ≡ idempotent env looked again s
unfolding remember idempotent
remember-other env none looked payload response again s t r n =
    ap (idempotent env looked again) (sym (ok_inj r))
remember-other env (some key) none payload response again s t r n = refl
remember-other env (some key) (some other) payload response again s t r n =
    on_ok (canonicalise env payload) _ r λ request c _.
      idempotent-other env key payload response s t request c r other again
        (eq_false_of_ne key other (λ e. n (ap some e)))

-- What the API remembers for one request changes nothing for a request whose scope is another: whose caller has another
-- subject, organisation or role, or whose operation, resource or idempotency key is another. The texts of the
-- scoped keys never coincide, whatever characters the parts have.
pub idempotent-scoped_key :
    (env : Env) (p q : Principal)
    (key other operation other_operation resource other_resource : String)
    (payload response again : Json) (s t : Store)
    → remember env (scoped_key p (some key) operation resource) payload response s ≡ ok t
    → ¬ SameScope p q key other operation other_operation resource other_resource
    → idempotent env (scoped_key q (some other) other_operation other_resource) again t
      ≡ idempotent env (scoped_key q (some other) other_operation other_resource) again s
idempotent-scoped_key env p q key other operation other_operation resource other_resource payload
      response again s t r n =
    remember-other env _ _ payload response again s t r
      λ e. n (scoped_key_inj p q key other operation other_operation resource other_resource e)
