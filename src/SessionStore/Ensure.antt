-- ===== src/SessionStore/Ensure.antt =====
-- session-store.ts: `ensure` gives a session to every id, and leaves all others as they are.
use phus.Prelude.{
  ℕ, String, ◌≡◌, refl, sym, ap, ◌∙◌, ◌⊎◌, inl, inr, true, false, Option, none, some, eq_of_some,
  [], ◌∷◌, ◌++◌, eq_iff, eq_refl, Bool-cases, Option-cases, any, find?,
}
use text.Mathlib.Text.{◌==◌ as str_eq}
use phus.Prelude.{find?-holds, find?-of_any, find?-append_none, find?-append_some}
use phus.SessionStore.{
  SessionKind, SessionAddress, Session, SessionRow, SessionError, unique_constraint, Sessions,
  legacy_session, has_session_id, at_address, row_to_session, row_of_options, map_session, get,
  create,
}
use phus.SessionStore.Methods.{compat_options, compat_address, or_raced, or_fallback, ensure}

pub record IsEnsured (id : String) (before after : Sessions)
    (result : SessionError ⊎ Option Session) : Type 0 where
  pub session : Session
  pub returned : result ≡ inr (some session)
  pub same_id : session.id ≡ id
  -- It is there after the call,
  pub later : get id after ≡ some session
  -- and so are the others, as they were.
  pub kept : (other : String) (s : Session) → get other before ≡ some s → get other after ≡ some s

get-found :
    (id : String) (rows : Sessions) (s : Session)
    → get id rows ≡ some s
    → (row : SessionRow) × (find? (has_session_id id) rows ≡ some row) × (row_to_session row ≡ s)
unfolding get
get-found id rows s e = elim (Option-cases (find? (has_session_id id) rows)) [
  | inl n ↦ absurd (let bad = (rw (n, get) at e) in cc)
  | inr (row, f) ↦ (row, f, eq_of_some (rw (f, get) at e))
]

get-id : (id : String) (rows : Sessions) (s : Session) → get id rows ≡ some s → s.id ≡ id
get-id id rows s e =
    let (row, f, same) = get-found id rows s e in
    sym (ap (λ (t : Session). t.id) same)
    ∙ (eq_iff row.id id).0 (find?-holds (has_session_id id) rows row f)

get-append_some :
    (id : String) (rows more : Sessions) (s : Session)
    → get id rows ≡ some s
    → get id (rows ++ more) ≡ some s
unfolding get
get-append_some id rows more s e =
    let (row, f, same) = get-found id rows s e in
    ap map_session (find?-append_some (has_session_id id) rows more row f) ∙ ap some same

get-none :
    (id : String) (rows : Sessions) → get id rows ≡ none → any (has_session_id id) rows ≡ false
unfolding get
get-none id rows e = elim (Bool-cases (any (has_session_id id) rows)) [
  | inr f ↦ f
  | inl t ↦
      let (row, f) = find?-of_any (has_session_id id) rows t in
      absurd (let bad = sym e ∙ ap map_session f in cc)
]

get-last :
    (id : String) (rows : Sessions) (row : SessionRow)
    → any (has_session_id id) rows ≡ false
    → has_session_id id row ≡ true
    → get id (rows ++ row ∷ []) ≡ some (row_to_session row)
unfolding get
get-last id rows row h k =
    let f : find? (has_session_id id) (rows ++ row ∷ []) ≡ some row =
      find?-append_none (has_session_id id) rows (row ∷ []) h ∙ (rw k refl) in
    ap map_session f

-- A new id at an address that is free.
create-new :
    (id : String) (now : ℕ) (kind : SessionKind) (address : SessionAddress) (rows : Sessions)
    → str_eq id "" ≡ false
    → any (has_session_id id) rows ≡ false
    → any (at_address address) rows ≡ false
    → IsEnsured id rows
        (create id now (compat_options id kind address) rows).0
        (create id now (compat_options id kind address) rows).1
unfolding create
create-new id now kind address rows named new free =
    let row : SessionRow = row_of_options id now (compat_options id kind address) in
    let got : get id (rows ++ row ∷ []) ≡ some (row_to_session row) =
      get-last id rows row new (eq_refl id) in
    rw (named, new, free, create)
      (record {
        session = row_to_session row;
        returned = ap inr got;
        same_id = refl;
        later = got;
        kept = λ other s e. get-append_some other rows (row ∷ []) s e;
      })

create-taken :
    (id : String) (now : ℕ) (kind : SessionKind) (address : SessionAddress) (rows : Sessions)
    → str_eq id "" ≡ false
    → any (has_session_id id) rows ≡ false
    → any (at_address address) rows ≡ true
    → create id now (compat_options id kind address) rows ≡ (rows, inl unique_constraint)
unfolding create
create-taken id now kind address rows named new taken = rw (named, new, taken, create) refl

IsEnsured-existing :
    (id : String) (rows : Sessions) (s : Session)
    → get id rows ≡ some s
    → IsEnsured id rows rows (inr (some s))
IsEnsured-existing id rows s e = record {
  session = s;
  returned = refl;
  same_id = get-id id rows s e;
  later = e;
  kept = λ other t k. k;
}

or_raced-IsEnsured :
    (id : String) (rows after : Sessions) (result : SessionError ⊎ Option Session)
    → IsEnsured id rows after result
    → IsEnsured id rows (or_raced none (after, result)).0 (or_raced none (after, result)).1
or_raced-IsEnsured id rows after (inl err) h = absurd (let bad = h.returned in cc)
or_raced-IsEnsured id rows after (inr session) h = h

or_fallback-IsEnsured :
    (id : String) (now : ℕ) (kind : SessionKind) (rows after : Sessions)
    (result : SessionError ⊎ Option Session)
    → IsEnsured id rows after result
    → IsEnsured id rows
        (or_fallback id now kind (after, result)).0
        (or_fallback id now kind (after, result)).1
or_fallback-IsEnsured id now kind rows after (inl err) h = absurd (let bad = h.returned in cc)
or_fallback-IsEnsured id now kind rows after (inr session) h = h

fallback-IsEnsured :
    (id : String) (now : ℕ) (kind : SessionKind) (rows : Sessions)
    → str_eq id "" ≡ false
    → get id rows ≡ none
    → any (at_address (compat_address id)) rows ≡ false
    → IsEnsured id rows
        (or_fallback id now kind (rows, inl unique_constraint)).0
        (or_fallback id now kind (rows, inl unique_constraint)).1
fallback-IsEnsured id now kind rows named absent free =
    rw (absent, or_fallback)
      (rw absent (
        or_raced-IsEnsured id rows _ _
          (create-new id now kind (compat_address id) rows named (get-none id rows absent) free)))

create-IsEnsured :
    (id : String) (now : ℕ) (kind : SessionKind) (address : SessionAddress) (rows : Sessions)
    → str_eq id "" ≡ false
    → get id rows ≡ none
    → any (at_address (compat_address id)) rows ≡ false
    → IsEnsured id rows
        (or_fallback id now kind (create id now (compat_options id kind address) rows)).0
        (or_fallback id now kind (create id now (compat_options id kind address) rows)).1
create-IsEnsured id now kind address rows named absent free =
    let new = get-none id rows absent in
    elim (Bool-cases (any (at_address address) rows)) [
      | inl taken ↦
          rw (create-taken id now kind address rows named new taken)
            (fallback-IsEnsured id now kind rows named absent free)
      | inr open_address ↦
          or_fallback-IsEnsured id now kind rows _ _
            (create-new id now kind address rows named new open_address)
    ]

-- For an id that is not empty, where no session has taken the address that `ensure` falls back to
-- for it: `ensure` returns a session with that id, which `get` gives in the table after the call, and
-- every session that was there is so still, as it was.
pub ensure-IsEnsured :
    (id : String) (now : ℕ) (rows : Sessions)
    → str_eq id "" ≡ false
    → any (at_address (compat_address id)) rows ≡ false
    → IsEnsured id rows (ensure id now rows).0 (ensure id now rows).1
unfolding ensure
ensure-IsEnsured id now rows named free = elim (Option-cases (get id rows)) [
  | inl absent ↦
      rw (absent, ensure)
        (create-IsEnsured id now (legacy_session id).0 (legacy_session id).1 rows named absent free)
  | inr (s, e) ↦ rw (e, ensure) (IsEnsured-existing id rows s e)
]
