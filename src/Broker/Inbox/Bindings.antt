-- ===== src/Broker/Inbox/Bindings.antt =====
-- The owners of a pair of broker and account.
use quanquant.Base.{
  ℕ, ◌≡◌, refl, true, Option, none, some, List, [], ◌∷◌, ◌++◌, arith, String, if◌then◌else◌,
  Option-cases, inl, inr, str_eq_refl, ◌==◌, ==_iff,
}
use mathlib.Core.Option.{some-injective}
use quanquant.Broker.Inbox.{
  AgentAccountBinding, AccountBindings, binds, find_account_binding, bind_account,
}

-- The owner that the table names.
abbrev pub owner_of : String → String → AccountBindings → Option ℕ
owner_of broker account t = elim (find_account_binding broker account t) [
  | none ↦ none
  | some b ↦ some b.user_id
]

find-append :
    (b a : String) (t : AccountBindings) (new : AgentAccountBinding) (r : AgentAccountBinding)
    → find_account_binding b a t ≡ some r
    → find_account_binding b a (t ++ new ∷ []) ≡ some r
unfolding find_account_binding
find-append b a [] new r e = cc
find-append b a (x ∷ t) new r e = ground (arith, find-append b a t new r)

pub find-append_new :
    (b a : String) (t : AccountBindings) (new : AgentAccountBinding)
    → find_account_binding b a t ≡ none
    → find_account_binding b a (t ++ new ∷ []) ≡ (if binds b a new then some new else none)
unfolding find_account_binding
find-append_new b a [] new e = refl
find-append_new b a (x ∷ t) new e = ground (arith, find-append_new b a t new)

-- A binding, once made, is never given to another user.
pub bind_account-keeps :
    (b a b' a' : String) (u v : ℕ) (t : AccountBindings)
    → owner_of b a t ≡ some v
    → owner_of b a (bind_account b' a' u t).1 ≡ some v
unfolding bind_account
bind_account-keeps b a b' a' u v t h = elim (Option-cases (find_account_binding b' a' t)) [
  | inr (r, e) ↦ rw (e, bind_account) h
  | inl e ↦ elim (Option-cases (find_account_binding b a t)) [
    | inl missing ↦ cc
    | inr (r, found) ↦
        let new : AgentAccountBinding = record { broker = b'; account = a'; user_id = u } in
        rw (e, bind_account, owner_of, find-append b a t new r found) (rw (found, owner_of) at h)
  ]
]

-- Calls that bind, one after the other: a broker, an account, and the user.
abbrev pub bind_all : List (String × String × ℕ) → AccountBindings → AccountBindings
bind_all [] t = t
bind_all ((b, a, u) ∷ calls) t = bind_all calls (bind_account b a u t).1

bind_all-keeps :
    (calls : List (String × String × ℕ)) (b a : String) (v : ℕ) (t : AccountBindings)
    → owner_of b a t ≡ some v
    → owner_of b a (bind_all calls t) ≡ some v
bind_all-keeps [] b a v t h = h
bind_all-keeps ((b', a', u) ∷ calls) b a v t h =
    bind_all-keeps calls b a v (bind_account b' a' u t).1 (bind_account-keeps b a b' a' u v t h)

owner_decides :
    (b a : String) (u v : ℕ) (t : AccountBindings)
    → owner_of b a t ≡ some v
    → (bind_account b a u t).0 ≡ (v == u)
unfolding bind_account
owner_decides b a u v t h = elim (Option-cases (find_account_binding b a t)) [
  | inl missing ↦ cc
  | inr (r, found) ↦
      let same : r.user_id ≡ v = some-injective r.user_id v (rw (found, owner_of) at h) in
      rw (found, bind_account, same) refl
]

pub bound_owner :
    (b a : String) (u : ℕ) (t : AccountBindings)
    → (bind_account b a u t).0 ≡ true
    → owner_of b a (bind_account b a u t).1 ≡ some u
unfolding bind_account
bound_owner b a u t h = elim (Option-cases (find_account_binding b a t)) [
  | inr (r, found) ↦
      let same = (==_iff r.user_id u).0 (rw (found, bind_account) at h) in
      rw (found, bind_account, owner_of, found, same) refl
  | inl missing ↦
      let new : AgentAccountBinding = record { broker = b; account = a; user_id = u } in
      let mine : binds b a new ≡ true = rw (str_eq_refl b, str_eq_refl a) refl in
      rw (missing, bind_account, owner_of, find-append_new b a t new missing, mine) refl
]

-- Who binds a pair of broker and account keeps it: after any further calls of bind_account by anyone,
-- bind_account answers true to that pair for the same user and for no other.
pub bound_for_good :
    (b a : String) (u : ℕ) (calls : List (String × String × ℕ)) (u' : ℕ) (t : AccountBindings)
    → (bind_account b a u t).0 ≡ true
    → (bind_account b a u' (bind_all calls (bind_account b a u t).1)).0 ≡ (u == u')
bound_for_good b a u calls u' t h =
    owner_decides b a u' u (bind_all calls (bind_account b a u t).1)
      (bind_all-keeps calls b a u (bind_account b a u t).1 (bound_owner b a u t h))
