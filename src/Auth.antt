-- ===== src/Auth.antt =====
-- src/sort4circ_dpp/auth.py: the two identity providers. Headers are a dict with keys in lower case.
use sort4circ.Prelude.{
  ◌≡◌, refl, sym, ap, ◌∙◌, ◌⊎◌, inl, inr, String, Bool, true, false, Option, none, some, Result, ok,
  err, ok_inj, Assoc, lookup, if◌then◌else◌, ◌==◌,
}
use sort4circ.Reasons.{Error, raised, auth_invalid_token, authz_operation_forbidden}
use sort4circ.Access.{Role, role_named, scopes, Principal, anonymous, require_scope}

-- Is a header that may be absent a text that is not empty?
abbrev pub is_given : Option String → Bool
is_given none = false
is_given (some t) = if t == "" then false else true

-- `PublicOnlyAuth.authenticate`
unfoldable pub public_only : Assoc String → Result Error Principal
public_only headers =
    if is_given (lookup "x-dpp-role" headers) then err (raised auth_invalid_token) else ok anonymous

abbrev pub text_or : String → Option String → String
text_or t none = t
text_or t (some u) = u

abbrev pub demo_role : Assoc String → Option Role → Result Error Principal
demo_role headers none = err (raised auth_invalid_token)
demo_role headers (some role) = ok (record {
  subject = text_or "synthetic-client" (lookup "x-dpp-subject" headers);
  role = role;
  organisation_id = lookup "x-dpp-organisation" headers;
})

abbrev pub demo_named : Assoc String → Option String → Result Error Principal
demo_named headers none = ok anonymous
demo_named headers (some name) = demo_role headers (role_named name)

-- `DemoAuth.authenticate`
unfoldable pub demo : Assoc String → Result Error Principal
demo headers = demo_named headers (lookup "x-dpp-role" headers)

anonymous-write : require_scope anonymous "dpp.write" ≡ err (raised authz_operation_forbidden)
unfolding require_scope scopes
anonymous-write = refl

public_only-anonymous :
    (given : Bool) (p : Principal)
    → Path
        (Result Error Principal)
        (if given then err (raised auth_invalid_token) else ok anonymous)
        (ok p)
    → p ≡ anonymous
public_only-anonymous true p h = absurd (cc)
public_only-anonymous false p h = sym (ok_inj h)

-- Whom the public provider lets in is anonymous.
pub public_only_lem :
    (headers : Assoc String) (p : Principal) → public_only headers ≡ ok p → p ≡ anonymous
unfolding public_only
public_only_lem headers p h = public_only-anonymous (is_given (lookup "x-dpp-role" headers)) p h

-- Whatever the headers claim, nobody whom the public provider lets in holds the scope of a write.
pub public_only-write :
    (headers : Assoc String) (p : Principal)
    → public_only headers ≡ ok p
    → require_scope p "dpp.write" ≡ err (raised authz_operation_forbidden)
public_only-write headers p h =
    ap (λ (q : Principal). require_scope q "dpp.write") (public_only_lem headers p h)
    ∙ anonymous-write

demo_role-known :
    (headers : Assoc String) (role : Option Role) (p : Principal)
    → demo_role headers role ≡ ok p
    → role ≡ some p.role
demo_role-known headers none p h = absurd (cc)
demo_role-known headers (some role) p h = ap (λ (q : Principal). some q.role) (ok_inj h)

-- Whom the demonstration provider lets in is anonymous, without a role in the headers, or has the
-- role of the released matrix that the headers name.
demo-known :
    (headers : Assoc String) (p : Principal)
    → demo headers ≡ ok p
    → ((lookup "x-dpp-role" headers ≡ none) × (p ≡ anonymous))
      ⊎ ((name : String) × (lookup "x-dpp-role" headers ≡ some name)
          × (role_named name ≡ some p.role))
unfolding demo
demo-known headers p h = go (lookup "x-dpp-role" headers) refl h
  where
    go :
        (o : Option String)
        → lookup "x-dpp-role" headers ≡ o
        → demo_named headers o ≡ ok p
        → ((lookup "x-dpp-role" headers ≡ none) × (p ≡ anonymous))
          ⊎ ((name : String) × (lookup "x-dpp-role" headers ≡ some name)
              × (role_named name ≡ some p.role))
    go none e h = inl (e, sym (ok_inj h))
    go (some name) e h = inr (name, e, demo_role-known headers (role_named name) p h)
