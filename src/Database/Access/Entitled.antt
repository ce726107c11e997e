-- ===== src/Database/Access/Entitled.antt =====
-- Who `ListAccessibleAgents` of internal/database/access_repository.go lets in.
use echoear_cloud.Base.{
  ℕ, Bool, true, false, ◌≡◌, refl, ◌⊎◌, inl, inr, Option, none, some, List, [], ◌∷◌, ◌==◌, arith,
  find, select, map, In, first, later, All, All-append, All-map, find-In, Bool-cases, ==_iff,
  eq_iff, ◌≤◌, ◌<◌,
}
use echoear_cloud.Database.Rows.{User, Agent, Share, Db}
use echoear_cloud.Database.Access.{
  AgentAccess, grants, owned_row, shared_row, active_owner, joined, rows_of, all_rows, place,
  newest_first, list_accessible, expire_active,
}

-- An active account that owns the agent.
abbrev pub IsActiveOwner : Agent → User → Type 0
IsActiveOwner a u = (u.id ≡ a.user_id) × (u.status ≡ "active")

-- An active share of an agent with a user, that has begun and is not over.
abbrev pub IsGrant : ℕ → ℕ → ℕ → Share → Type 0
IsGrant now user agent s =
    (s.agent_id ≡ agent)
    × (s.grantee_user_id ≡ user)
    × (s.status ≡ "active")
    × (s.valid_from ≤ now)
    × ((until : ℕ) → s.valid_until ≡ some until → now < until)

-- What stands behind a row of the list: an agent of the database, an active account that owns it,
-- and either the user is that owner or an active share in its period names the user as grantee.
pub record Entitled (db : Db) (now user : ℕ) (x : AgentAccess) : Type 0 where
  pub known : In x.agent db.agents
  pub owner : (u : User) × In u db.users × IsActiveOwner x.agent u
  pub right :
      ((x.agent.user_id ≡ user) × (x.share_id ≡ "") × (x.access_type ≡ "owner"))
      ⊎ ((s : Share) × In s db.shares
          × IsGrant now user x.agent.id s
          × (x.share_id ≡ s.id)
          × (x.policy ≡ s.policy)
          × (x.policy_version ≡ s.policy_version))

active_owner-IsActiveOwner : (a : Agent) (u : User) → active_owner a u ≡ true → IsActiveOwner a u
active_owner-IsActiveOwner a u h =
    (ground (arith, h, ==_iff u.id a.user_id), ground (arith, h, eq_iff u.status "active"))

grants-IsGrant :
    (now user agent : ℕ) (s : Share) → grants now user agent s ≡ true → IsGrant now user agent s
grants-IsGrant now user agent s h = (
  ground (arith, h, ==_iff s.agent_id agent),
  ground (arith, h, ==_iff s.grantee_user_id user),
  ground (arith, h, eq_iff s.status "active"),
  ground (arith, h),
  λ until e. ground (arith, h, e),
)

In-select :
    {A : Type 0} (p : A → Bool) (xs : List A) → All (λ x. In x xs × (p x ≡ true)) (select p xs)
In-select p [] = tt
In-select {A} p (x ∷ xs) =
    go (Bool-cases (p x)) (All-map (select p xs) (λ y h. (later h.0, h.1)) (In-select p xs))
  where
    go :
        (p x ≡ true) ⊎ (p x ≡ false)
        → All (λ y. In y (x ∷ xs) × (p y ≡ true)) (select p xs)
        → All (λ y. In y (x ∷ xs) × (p y ≡ true)) (select p (x ∷ xs))
    go (inl hit) rest = rw hit ((first refl, hit), rest)
    go (inr miss) rest = rw miss rest

module _ (now clock user : ℕ) (db : Db) (a : Agent) (owner : User) (known : In a db.agents)
    (owns : In owner db.users) (active : active_owner a owner ≡ true) where
  shared-Entitled :
      (s : Share)
      → In s db.shares
      → grants now user a.id s ≡ true
      → Entitled db now user (shared_row clock user a owner s)
  unfolding shared_row
  shared-Entitled s i g = record {
    known = known;
    owner = (owner, owns, active_owner-IsActiveOwner a owner active);
    right = inr (s, i, grants-IsGrant now user a.id s g, refl, refl, refl);
  }

  owned-Entitled : a.user_id ≡ user → Entitled db now user (owned_row clock a owner)
  unfolding owned_row
  owned-Entitled e = record {
    known = known;
    owner = (owner, owns, active_owner-IsActiveOwner a owner active);
    right = inl (e, refl, refl);
  }

  map-Entitled :
      (ss : List Share)
      → All (λ s. In s db.shares × (grants now user a.id s ≡ true)) ss
      → All (Entitled db now user) (map (shared_row clock user a owner) ss)
  map-Entitled [] h = tt
  map-Entitled (s ∷ ss) ((i, g), h) = (shared-Entitled s i g, map-Entitled ss h)

  joined-Entitled :
      (ss : List Share)
      → All (λ s. In s db.shares × (grants now user a.id s ≡ true)) ss
      → All (Entitled db now user) (joined clock user a owner ss)
  unfolding joined
  joined-Entitled (s ∷ ss) h = map-Entitled (s ∷ ss) h
  joined-Entitled [] h = go (Bool-cases (a.user_id == user))
    where
      go :
          ((a.user_id == user) ≡ true) ⊎ ((a.user_id == user) ≡ false)
          → All (Entitled db now user) (joined clock user a owner [])
      go (inl hit) = rw hit (owned-Entitled ((==_iff a.user_id user).0 hit), tt)
      go (inr miss) = rw miss tt

rows_of-Entitled :
    (now clock user : ℕ) (db : Db) (a : Agent)
    → In a db.agents
    → All (Entitled db now user) (rows_of now clock db user a)
unfolding rows_of
rows_of-Entitled now clock user db a known = go (find (active_owner a) db.users) refl
  where
    go :
        (o : Option User)
        → find (active_owner a) db.users ≡ o
        → All (Entitled db now user) (rows_of now clock db user a)
    go none e = rw (e, rows_of) tt
    go (some owner) e =
        let (owns, active) = find-In (active_owner a) db.users e in
        rw (e, rows_of)
          (joined-Entitled now clock user db a owner known owns active
            (select (grants now user a.id) db.shares) (In-select (grants now user a.id) db.shares))

all_rows-Entitled :
    (now clock user : ℕ) (db : Db) (rest : List Agent)
    → All (λ a. In a db.agents) rest
    → All (Entitled db now user) (all_rows now clock db user rest)
unfolding all_rows
all_rows-Entitled now clock user db [] h = tt
all_rows-Entitled now clock user db (a ∷ rest) (i, h) =
    All-append (Entitled db now user) (rows_of now clock db user a)
      (all_rows now clock db user rest) (rows_of-Entitled now clock user db a i)
      (all_rows-Entitled now clock user db rest h)

All-In : {A : Type 0} (xs : List A) → All (λ x. In x xs) xs
All-In [] = tt
All-In (x ∷ xs) = (first refl, All-map xs (λ y i. later i) (All-In xs))

All-place :
    (P : AgentAccess → Type 0) (x : AgentAccess) (ys : List AgentAccess)
    → P x
    → All P ys
    → All P (place x ys)
unfolding place
All-place P x [] p h = (p, tt)
All-place P x (y ∷ ys) p (q, h) = ground (arith, All-place P x ys p h)

All-newest_first :
    (P : AgentAccess → Type 0) (xs : List AgentAccess) → All P xs → All P (newest_first xs)
unfolding newest_first
All-newest_first P [] h = tt
All-newest_first P (x ∷ xs) (p, h) = All-place P x (newest_first xs) p (All-newest_first P xs h)

pub list_accessible-Entitled :
    (now clock : ℕ) (db : Db) (user : ℕ)
    → let (db', rows) = list_accessible now clock db user in All (Entitled db' now user) rows
unfolding list_accessible
list_accessible-Entitled now clock db user =
    let db' = expire_active now db in
    All-newest_first (Entitled db' now user) (all_rows now clock db' user db'.agents)
      (all_rows-Entitled now clock user db' db'.agents (All-In db'.agents))
