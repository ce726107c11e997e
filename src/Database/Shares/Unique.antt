-- ===== src/Database/Shares/Unique.antt =====
-- The operations of internal/database/access_repository.go that write shares, as steps.
use mathlib.Core.Path.{subst}
use echoear_cloud.Base.{
  if-cases, str_eq, ap, ◌∙◌, ℕ, String, Bool, true, false, ◌≡◌, refl, sym, ◌⊎◌, inl, inr, Option,
  none, some, List, [], ◌∷◌, ◌++◌, ◌&&◌, not, ◌==◌, arith, find, select, any, eq_iff, All, All-map,
  Bool-cases,
}
use echoear_cloud.Database.Rows.{
  ok, Share, User, Db, update_where, json_or_empty, guard-eq_ok, or_fail-eq_ok, check_violation,
  open_share_exists, no_rows, cannot_share_with_owner,
}
use echoear_cloud.Database.Users.{
  is_open, Plan, open_share_of, lock_out, apply_lifecycle, update_user_lifecycle,
}
use echoear_cloud.Database.Users.Admins.{update_user_lifecycle-parts}
use echoear_cloud.Database.Access.{expire_active, list_accessible}
use echoear_cloud.Database.Shares.{
  orphan, new_share, occupies, has_share_id, insert_share, create_share, list_shares, expire_open,
  expire, is_over, Action, accept, decline, revoke, update, Change, transition_share, valid_period,
  allowed,
}
use echoear_cloud.Database.Shares.Status.{write_row-Follows, transition_share-Done}
use echoear_cloud.Database.Shares.Open.{
  UniqueOpen, UniqueShareIds, OpensNothing, UniqueOpen-append, UniqueOpen-select, UniqueOpen-update,
  UniqueShareIds-select, UniqueShareIds-append, UniqueShareIds-update, any-select,
}

-- One operation that succeeds. `CreateShare` is its clean-up, then its insertion under an id that no row
-- has. `ListShares` and `ListAccessibleAgents` expire shares, `UpdateUserLifecycle` revokes those of an
-- account that it disables or deletes; every other operation leaves the table as it is.
pub data ShareStep (db : Db) : Db → Type 0 where
  created :
      (lower : String → String) (decode : String → Option String) (clock now : ℕ) (id : String)
      (owner : ℕ) (public_id grantee : String) (from until : Option ℕ) (policy : String) (s : Share)
      {db' : Db}
      → any (has_share_id id) db.shares ≡ false
      → create_share lower decode clock now id db owner public_id grantee from until policy
        ≡ ok (db', s)
      → ShareStep db db'
  listed :
      (now user : ℕ) (admin : Bool) {db' : Db}
      → db' ≡ (list_shares now db user admin).0
      → ShareStep db db'
  accessed :
      (now clock user : ℕ) {db' : Db}
      → db' ≡ (list_accessible now clock db user).0
      → ShareStep db db'
  moved :
      (decode : String → Option String) (now actor : ℕ) (id : String) (a : Action) (c : Change)
      (admin : Bool) (s : Share) {db' : Db}
      → transition_share decode now db actor id a c admin ≡ ok (db', s)
      → ShareStep db db'
  changed_user :
      (encode : Plan → String) (print : ℕ → String) (now actor target : ℕ)
      (status role reason : String) (u : User) {db' : Db}
      → update_user_lifecycle encode print now db actor target status role reason ≡ ok (db', u)
      → ShareStep db db'
  elsewhere : {db' : Db} → db'.shares ≡ db.shares → ShareStep db db'

-- The primary key, and at most one open share of an agent with a grantee.
abbrev pub IsKeyed : List Share → Type 0
IsKeyed ss = UniqueShareIds ss × UniqueOpen ss

-- The tables that any operations in any order make of one that is keyed.
pub data ShareReach : Db → Type 0 where
  starting : {db : Db} → IsKeyed db.shares → ShareReach db
  next : {db db' : Db} → ShareReach db → ShareStep db db' → ShareReach db'

insert_share-IsKeyed :
    (now : ℕ) (db db' : Db) (new s : Share)
    → IsKeyed db.shares
    → any (has_share_id new.id) db.shares ≡ false
    → insert_share now db new ≡ ok (db', s)
    → IsKeyed db'.shares
unfolding insert_share
insert_share-IsKeyed now db db' new s (ids, u) fresh e =
    let (valid, rest) =
      guard-eq_ok (valid_period new.valid_from new.valid_until) check_violation _ e in
    let (free, end) =
      guard-eq_ok (not (any (occupies new.agent_id new.grantee_user_id) db.shares))
        open_share_exists _ rest in
    let rows : db.shares ++ new ∷ [] ≡ db'.shares = ground arith in
    subst IsKeyed rows (
      UniqueShareIds-append db.shares new ids fresh,
      UniqueOpen-append db.shares new u (ground arith),
    )

create_share-IsKeyed :
    (lower : String → String) (decode : String → Option String) (clock now : ℕ) (id : String)
    (owner : ℕ) (public_id grantee : String) (from until : Option ℕ) (policy : String) (s : Share)
    (db db' : Db)
    → IsKeyed db.shares
    → any (has_share_id id) db.shares ≡ false
    → create_share lower decode clock now id db owner public_id grantee from until policy
      ≡ ok (db', s)
    → IsKeyed db'.shares
unfolding create_share new_share
create_share-IsKeyed lower decode clock now id owner public_id grantee from until policy s db db'
      (ids, u) fresh e =
    let (agent, a, rest) = or_fail-eq_ok (find _ db.agents) no_rows _ e in
    let (user, b, rest') = or_fail-eq_ok (find _ db.users) no_rows _ rest in
    let (other, rest'') = guard-eq_ok (not (user.id == owner)) cannot_share_with_owner _ rest' in
    let kept = λ (r : Share). not (orphan db agent.id user.id r) in
    insert_share-IsKeyed now (record db { shares = select kept db.shares }) db'
      (new_share now id agent.id owner user.id (elim from [ none ↦ clock | some t ↦ t ]) until
        (json_or_empty decode policy))
      s (UniqueShareIds-select kept db.shares ids, UniqueOpen-select kept db.shares u)
      (any-select kept (has_share_id id) db.shares fresh) rest''

-- A change that keeps ids and opens nothing, on rows that pass a test.
update_where-IsKeyed :
    (p : Share → Bool) (f : Share → Share) (ss : List Share)
    → ((r : Share) → p r ≡ true → ((f r).id ≡ r.id) × OpensNothing r (f r))
    → IsKeyed ss
    → IsKeyed (update_where p f ss)
update_where-IsKeyed p f ss change (ids, u) = (
  UniqueShareIds-update p f ss (every ss (λ r h. (change r h).0)) ids,
  UniqueOpen-update p f ss (every ss (λ r h. (change r h).1)) u,
)
  where
    every :
        {P : Share → Type 0} (rs : List Share)
        → ((r : Share) → p r ≡ true → P r)
        → All (λ r. p r ≡ true → P r) rs
    every [] h = tt
    every (r ∷ rs) h = (h r, every rs h)

expire_open-IsKeyed : (now : ℕ) (db : Db) → IsKeyed db.shares → IsKeyed (expire_open now db).shares
unfolding expire_open
expire_open-IsKeyed now db k =
    update_where-IsKeyed (λ s. is_open s.status && is_over now s) (expire now) db.shares
      (λ r h. (refl, (refl, refl, λ o. ground arith))) k

expire_active-IsKeyed :
    (now : ℕ) (db : Db) → IsKeyed db.shares → IsKeyed (expire_active now db).shares
unfolding expire_active
expire_active-IsKeyed now db k =
    update_where-IsKeyed (λ s. str_eq s.status "active" && is_over now s) (expire now) db.shares
      (λ r h. (refl, (refl, refl, λ o. ground arith))) k

apply_lifecycle-IsKeyed :
    (encode : Plan → String) (print : ℕ → String) (now : ℕ) (p : Plan) (db : Db)
    → IsKeyed db.shares
    → IsKeyed (apply_lifecycle encode print now p db).shares
unfolding apply_lifecycle lock_out
apply_lifecycle-IsKeyed encode print now p db k =
    if-cases (λ (d : Db). IsKeyed d.shares) (str_eq p.status "active") _ _ (λ active. k)
      (λ gone.
        update_where-IsKeyed (open_share_of p.target) _ db.shares
          (λ r h. (refl, (refl, refl, λ o. ground (arith, h)))) k)

allowed-open :
    (a : Action) (actor : ℕ) (admin : Bool) (s : Share)
    → allowed a actor admin s ≡ true
    → is_open s.status ≡ true
unfolding allowed
allowed-open accept actor admin s h = ground arith
allowed-open decline actor admin s h = ground arith
allowed-open revoke actor admin s h = ground arith
allowed-open update actor admin s h = ground arith

-- With the primary key, the row that is found is the only one of its id.
only_row :
    (id : String) (s : Share) (ss : List Share)
    → UniqueShareIds ss
    → find (has_share_id id) ss ≡ some s
    → All (λ r. has_share_id id r ≡ true → r ≡ s) ss
only_row id s [] u e = tt
only_row id s (x ∷ ss) (fresh, u) e = go (Bool-cases (has_share_id id x)) (only_row id s ss u)
  where
    go :
        (has_share_id id x ≡ true) ⊎ (has_share_id id x ≡ false)
        → (find (has_share_id id) ss ≡ some s → All (λ r. has_share_id id r ≡ true → r ≡ s) ss)
        → All (λ r. has_share_id id r ≡ true → r ≡ s) (x ∷ ss)
    go (inl hit) rest =
        let same : x ≡ s = ground arith in
        (
          λ h. same,
          All-map ss
              (λ r no h.
                absurd
                  (ground (arith, no, h, hit, eq_iff r.id x.id, eq_iff r.id id, eq_iff x.id id)))
              fresh,
        )
    go (inr miss) rest = (λ h. cc (h, miss), rest (rw miss at e))

pub ShareStep-IsKeyed : {db db' : Db} → IsKeyed db.shares → ShareStep db db' → IsKeyed db'.shares
unfolding list_shares list_accessible
ShareStep-IsKeyed {db} {db'} k
      (created lower decode clock now id owner public_id grantee from until policy s fresh e) =
    create_share-IsKeyed lower decode clock now id owner public_id grantee from until policy s db
      db' k fresh e
ShareStep-IsKeyed {db} {db'} k (listed now user admin e) =
    subst (λ (d : Db). IsKeyed d.shares) (sym e) (expire_open-IsKeyed now db k)
ShareStep-IsKeyed {db} {db'} k (accessed now clock user e) =
    subst (λ (d : Db). IsKeyed d.shares) (sym e) (expire_active-IsKeyed now db k)
ShareStep-IsKeyed {db} {db'} (ids, u) (moved decode now actor id a c admin s e) =
    let d = transition_share-Done decode now db db' actor id a c admin s e in
    let f = write_row-Follows decode now actor a c d.row s d.wrote in
    let one = only_row id d.row db.shares ids d.found in
    subst IsKeyed (sym d.shares) (
      UniqueShareIds-update (has_share_id id) (λ old. s) db.shares
          (All-map db.shares (λ r only h. f.same_id ∙ ap (λ x. x.id) (sym (only h))) one) ids,
      UniqueOpen-update (has_share_id id) (λ old. s) db.shares
          (All-map db.shares
            (λ r only h.
              subst (λ x. OpensNothing x s) (sym (only h))
                (f.same_agent, f.same_grantee, λ o. allowed-open a actor admin d.row d.passed))
            one)
          u,
    )
ShareStep-IsKeyed {db} {db'} k (changed_user encode print now actor target status role reason u e) =
    let (p, checks, writes, read) =
      update_user_lifecycle-parts encode print now db db' actor target status role reason u e in
    subst (λ (d : Db). IsKeyed d.shares) (sym writes)
      (apply_lifecycle-IsKeyed encode print now p db k)
ShareStep-IsKeyed {db} {db'} k (elsewhere e) = subst IsKeyed (sym e) k

-- Whatever operations succeed, in whatever order, from a table of shares with one row for each id and at most
-- one open share of an agent with a grantee: the table stays one. Creating a share under an id that no
-- row has, listing, resolving an access, a transition, a change of an account and whatever leaves the
-- table alone are the operations.
pub ShareReach-IsKeyed : {db : Db} → ShareReach db → IsKeyed db.shares
ShareReach-IsKeyed (starting k) = k
ShareReach-IsKeyed (next r s) = ShareStep-IsKeyed (ShareReach-IsKeyed r) s
