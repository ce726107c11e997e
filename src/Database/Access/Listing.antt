-- ===== src/Database/Access/Listing.antt =====
-- What `ListAccessibleAgents` of internal/database/access_repository.go lists.
use mathlib.Core.Path.{subst}
use echoear_cloud.Base.{
  ◌∙◌, leb, ℕ, String, Bool, true, false, ◌≡◌, refl, sym, inl, inr, Option, none, some, List, [],
  ◌∷◌, arith, find, select, map, In, first, later, All, Bool-cases, ==_iff, eq_iff, if-cases,
  In-append_left, In-append_right, ltb, ap, ◌<◌,
}
use echoear_cloud.Database.Rows.{User, Agent, Share, Db}
use echoear_cloud.Database.Access.{
  AgentAccess, grants, owned_row, shared_row, active_owner, joined, rows_of, all_rows, place,
  newest_first, list_accessible, expire_active,
}
use echoear_cloud.Database.Access.Entitled.{
  Entitled, IsActiveOwner, IsGrant, list_accessible-Entitled,
}

In-kept :
    {A : Type 0} (p : A → Bool) (x : A) (xs : List A) → In x xs → p x ≡ true → In x (select p xs)
In-kept p x [] i h = elim i [ ]
In-kept p x (y ∷ ys) (first e) h =
    if-cases (In x) (p y) (y ∷ select p ys) (select p ys) (λ hit. first e)
      (λ miss. cc (ap p e, h, miss))
In-kept p x (y ∷ ys) (later i) h =
    let rest = In-kept p x ys i h in
    if-cases (In x) (p y) (y ∷ select p ys) (select p ys) (λ hit. later rest) (λ miss. rest)

In-mapped : {A B : Type 0} (f : A → B) (x : A) (xs : List A) → In x xs → In (f x) (map f xs)
In-mapped f x [] i = elim i [ ]
In-mapped f x (y ∷ ys) (first e) = first (ap f e)
In-mapped f x (y ∷ ys) (later i) = later (In-mapped f x ys i)

find-some :
    {A : Type 0} (p : A → Bool) (x : A) (xs : List A)
    → In x xs
    → p x ≡ true
    → (y : A) × (find p xs ≡ some y)
find-some p x [] i h = elim i [ ]
find-some p x (y ∷ ys) (first e) h = (y, rw (ap p e ∙ h) refl)
find-some {A} p x (y ∷ ys) (later i) h =
    let (z, found) = find-some p x ys i h in
    elim (Bool-cases (p y)) [ inl hit ↦ (y, rw hit refl) | inr miss ↦ (z, rw miss found) ]

In-place_self : (x : AgentAccess) (ys : List AgentAccess) → In x (place x ys)
unfolding place
In-place_self x [] = first refl
In-place_self x (y ∷ ys) =
    if-cases (In x) (ltb x.agent.updated_at y.agent.updated_at) (y ∷ place x ys) (x ∷ y ∷ ys)
      (λ older. later (In-place_self x ys)) (λ newer. first refl)

In-place : (x z : AgentAccess) (ys : List AgentAccess) → In z ys → In z (place x ys)
unfolding place
In-place x z [] i = elim i [ ]
In-place x z (y ∷ ys) (first e) =
    if-cases (In z) (ltb x.agent.updated_at y.agent.updated_at) (y ∷ place x ys) (x ∷ y ∷ ys)
      (λ older. first e) (λ newer. later (first e))
In-place x z (y ∷ ys) (later i) =
    let rest = In-place x z ys i in
    if-cases (In z) (ltb x.agent.updated_at y.agent.updated_at) (y ∷ place x ys) (x ∷ y ∷ ys)
      (λ older. later rest) (λ newer. later (later i))

In-newest_first : (z : AgentAccess) (xs : List AgentAccess) → In z xs → In z (newest_first xs)
unfolding newest_first
In-newest_first z [] i = elim i [ ]
In-newest_first z (x ∷ xs) (first e) =
    subst (λ y. In z (place y (newest_first xs))) (sym e) (In-place_self z (newest_first xs))
In-newest_first z (x ∷ xs) (later i) = In-place x z (newest_first xs) (In-newest_first z xs i)

In-all_rows :
    (now clock user : ℕ) (db : Db) (a : Agent) (z : AgentAccess) (rest : List Agent)
    → In a rest
    → In z (rows_of now clock db user a)
    → In z (all_rows now clock db user rest)
unfolding all_rows
In-all_rows now clock user db a z [] i h = elim i [ ]
In-all_rows now clock user db a z (b ∷ rest) (first e) h =
    In-append_left z (rows_of now clock db user b) (all_rows now clock db user rest)
      (subst (λ c. In z (rows_of now clock db user c)) (sym e) h)
In-all_rows now clock user db a z (b ∷ rest) (later i) h =
    In-append_right z (rows_of now clock db user b) (all_rows now clock db user rest)
      (In-all_rows now clock user db a z rest i h)

IsActiveOwner-active_owner : (a : Agent) (u : User) → IsActiveOwner a u → active_owner a u ≡ true
IsActiveOwner-active_owner a u (of, on) =
    ground (arith, (==_iff u.id a.user_id).1 of, (eq_iff u.status "active").1 on)

not_over :
    (now : ℕ) (o : Option ℕ)
    → ((t : ℕ) → o ≡ some t → now < t)
    → elim o as (λ x. Bool) [ none ↦ false | some until ↦ leb until now ] ≡ false
not_over now none h = refl
not_over now (some t) h = ground (arith, h t refl)

IsGrant-grants :
    (now user agent : ℕ) (s : Share) → IsGrant now user agent s → grants now user agent s ≡ true
IsGrant-grants now user agent s (of, to, on, begun, ends) = ground (
  arith,
  not_over now s.valid_until ends,
  (==_iff s.agent_id agent).1 of,
  (==_iff s.grantee_user_id user).1 to,
  (eq_iff s.status "active").1 on,
  begun,
)

-- The join of an agent whose owner was found.
joined_shared :
    (clock user : ℕ) (a : Agent) (u : User) (s : Share) (ss : List Share)
    → In s ss
    → In (shared_row clock user a u s) (joined clock user a u ss)
unfolding joined
joined_shared clock user a u s [] i = elim i [ ]
joined_shared clock user a u s (r ∷ ss) i = In-mapped (shared_row clock user a u) s (r ∷ ss) i

joined_owned :
    (clock user : ℕ) (a : Agent) (u : User) (ss : List Share)
    → a.user_id ≡ user
    → (x : AgentAccess) × In x (joined clock user a u ss) × (x.agent ≡ a)
unfolding joined owned_row shared_row
joined_owned clock user a u [] own =
    (owned_row clock a u, rw ((==_iff a.user_id user).1 own) (first refl), refl)
joined_owned clock user a u (s ∷ ss) own = (shared_row clock user a u s, first refl, refl)

module _ (now clock user : ℕ) (db : Db) (a : Agent) (u : User) (known : In a db.agents)
    (owns : In u db.users) (active : IsActiveOwner a u) where
  listed :
      (P : AgentAccess → Type 0)
      → ((v : User)
          → (x : AgentAccess) × In x
              (joined clock user a v (select (grants now user a.id) db.shares))
            × P x)
      → (x : AgentAccess) × In x (newest_first (all_rows now clock db user db.agents)) × P x
  unfolding rows_of
  listed P here =
      let (v, found) =
        find-some (active_owner a) u db.users owns (IsActiveOwner-active_owner a u active) in
      let (x, i, p) = here v in
      let row : In x (rows_of now clock db user a) = rw (rows_of, found) i in
      (
        x,
        In-newest_first x (all_rows now clock db user db.agents)
            (In-all_rows now clock user db a x db.agents known row),
        p,
      )

abbrev pub IsRowOf : Agent → List AgentAccess → Type 0
IsRowOf a rows = (x : AgentAccess) × In x rows × (x.agent ≡ a)

abbrev pub IsRowUnder : Agent → String → List AgentAccess → Type 0
IsRowUnder a share rows = (x : AgentAccess) × In x rows × (x.agent ≡ a) × (x.share_id ≡ share)

-- The list has a row of every agent that the user owns, and a row of every share that the user may use.
pub record IsComplete (db : Db) (now user : ℕ) (rows : List AgentAccess) : Type 0 where
  pub owned :
      (a : Agent) (u : User)
      → In a db.agents
      → In u db.users
      → IsActiveOwner a u
      → a.user_id ≡ user
      → IsRowOf a rows
  pub shared :
      (a : Agent) (u : User) (s : Share)
      → In a db.agents
      → In u db.users
      → In s db.shares
      → IsActiveOwner a u
      → IsGrant now user a.id s
      → IsRowUnder a s.id rows

-- Every agent that is listed for a user is one of the database whose owner's account is active, and
-- the user either owns it or is the grantee of a share of it that is active, has begun and is not over at
-- that time; the row then carries that share's id, policy and version. And nothing is missing: each such
-- agent of the user has a row, and each such share has a row with its id. The tables are those after
-- the active shares that are over have expired.
pub list_accessible-IsComplete :
    (now clock : ℕ) (db : Db) (user : ℕ)
    → let (db', rows) = list_accessible now clock db user in
      All (Entitled db' now user) rows × IsComplete db' now user rows
unfolding list_accessible shared_row
list_accessible-IsComplete now clock db user =
    let db' = expire_active now db in
    (
      list_accessible-Entitled now clock db user,
      record {
        owned = λ a u known owns active own.
            listed now clock user db' a u known owns active (λ x. x.agent ≡ a)
              (λ v. joined_owned clock user a v (select (grants now user a.id) db'.shares) own);
        shared = λ a u s known owns i active g.
            let (x, row, (same, under)) =
              listed now clock user db' a u known owns active
                (λ x. (x.agent ≡ a) × (x.share_id ≡ s.id))
                (λ v. (
                  shared_row clock user a v s,
                  joined_shared clock user a v s (select (grants now user a.id) db'.shares) (
                      In-kept (grants now user a.id) s db'.shares i
                        (IsGrant-grants now user a.id s g)),
                  (refl, refl),
                )) in
            (x, row, same, under);
      },
    )
