-- ===== src/Api/Shares/Limited.antt =====
-- The policies that shares get through internal/api/admin_share_handlers.go.
use mathlib.Core.Path.{subst}
use echoear_cloud.Base.{
  In, sym, ℕ, String, len, true, false, ◌≡◌, ◌≤◌, refl, ◌∙◌, ap, inl, inr, Option, none, some, ◌==◌,
  arith, not, if◌then◌else◌, is_empty, trim_space, ℤ, Bool-cases,
}
use echoear_cloud.Database.Rows.{Error, Result, ok, err, Share, Db, json_or_empty}
use echoear_cloud.Database.Shares.{Change, update, create_share, transition_share}
use echoear_cloud.Database.Shares.Terms.{create_share-policy, transition_share-policy}
use echoear_cloud.Api.Http.{done, if-eq_done}
use echoear_cloud.Api.Shares.{
  SharePolicy, within, accepts_policy, normalized_policy, normalize_share_policy, ShareRequest,
  Call, starts_at, ends_after, after_create, create_with_policy, create_agent_share,
  after_transition, update_with_policy, update_agent_share,
}

-- The daily limit of a policy that the handlers accept.
within-pos :
    (most : ℕ) (value : ℤ)
    → within most value ≡ true
    → (n : ℕ) × (value ≡ ℤ.pos n) × (1 ≤ n) × (n ≤ most)
within-pos most (ℤ.pos n) h = (n, refl, ground arith, ground arith)
within-pos most (ℤ.negsuc n) h = cc

module _ (read_policy : String → Option SharePolicy) (print_policy : SharePolicy → String) where
  normalize_share_policy-accepted :
      (raw policy : String)
      → normalize_share_policy read_policy print_policy raw ≡ some policy
      → (p : SharePolicy) × (accepts_policy p ≡ true) × (policy ≡ print_policy p)
  unfolding normalize_share_policy
  normalize_share_policy-accepted raw policy e = elim (Bool-cases (len raw == 0)) [
    | inl blank ↦ cc (rw (normalize_share_policy, blank) at e)
    | inr given ↦ read (read_policy raw) (rw (normalize_share_policy, given) at e)
  ]
    where
      read :
          (o : Option SharePolicy)
          → normalized_policy read_policy print_policy o ≡ some policy
          → (p : SharePolicy) × (accepts_policy p ≡ true) × (policy ≡ print_policy p)
      read none h = cc
      read (some p) h = elim (Bool-cases (accepts_policy p)) [
        | inl good ↦
            let same : ◌≡◌ {A = Option String} (some (print_policy p)) (some policy) =
              rw (if◌then◌else◌, good) at h in
            (p, good, cc)
        | inr bad ↦ cc (rw (if◌then◌else◌, bad) at h)
      ]

accepts_policy-limit :
    (p : SharePolicy)
    → accepts_policy p ≡ true
    → (n : ℕ) × (p.max_tasks_per_day ≡ ℤ.pos n) × (1 ≤ n) × (n ≤ 1000)
unfolding accepts_policy
accepts_policy-limit p h = within-pos 1000 p.max_tasks_per_day (ground arith)

-- The printed policy is not empty, and the limit of an accepted policy, at most 1000, is read back from
-- the stored text: `limit_of` is `json.Unmarshal` into the struct with `max_tasks_per_day`.
pub record IsJson (decode : String → Option String) (print_policy : SharePolicy → String)
    (limit_of : String → ℤ) : Type 0 where
  pub printed : (p : SharePolicy) → (len (print_policy p) == 0) ≡ false
  pub limit :
      (p : SharePolicy)
      → accepts_policy p ≡ true
      → limit_of (json_or_empty decode (print_policy p)) ≡ p.max_tasks_per_day

module _ (lower : String → String) (decode : String → Option String)
    (read_policy : String → Option SharePolicy) (print_policy : SharePolicy → String)
    (code details : Error → String) where
  -- The two handlers that give a share its policy: the tables they leave and the share they answer.
  pub data Gives (db' : Db) (s : Share) : Type 0 where
    created :
        (c : Call) (db : Db) (user : ℕ) (agent : String) (body : Option ShareRequest)
        → create_agent_share lower decode read_policy print_policy code details c db user agent body
          ≡ (db', done s)
        → Gives db' s
    updated :
        (now : ℕ) (db : Db) (user : ℕ) (id : String) (body : Option ShareRequest)
        → update_agent_share lower decode read_policy print_policy code details now db user id body
          ≡ (db', done s)
        → Gives db' s

  create_agent_share-policy :
      (c : Call) (db db' : Db) (user : ℕ) (agent : String) (body : Option ShareRequest) (s : Share)
      → create_agent_share lower decode read_policy print_policy code details c db user agent body
        ≡ (db', done s)
      → (p : SharePolicy) × (accepts_policy p ≡ true)
        × (s.policy ≡ json_or_empty decode (print_policy p))
        × In s db'.shares
  unfolding create_agent_share create_with_policy after_create
  create_agent_share-policy c db db' user agent none s e = cc
  create_agent_share-policy c db db' user agent (some r) s e =
      let (named, rest) =
        if-eq_done (is_empty (trim_space r.grantee_username)) db db' 400
          (create_with_policy lower decode read_policy print_policy code details c db user agent r
            (normalize_share_policy read_policy print_policy r.policy))
          e in
      normal (normalize_share_policy read_policy print_policy r.policy) refl rest
    where
      stored :
          (policy : String) (result : Result (Db × Share))
          → create_share lower decode c.clock c.now c.id db user agent r.grantee_username
              (some (starts_at c r.valid_from))
              r.valid_until
              policy
            ≡ result
          → after_create lower decode read_policy print_policy code details c db user agent result
            ≡ (db', done s)
          → (s.policy ≡ json_or_empty decode policy) × In s db'.shares
      stored policy (err failure) made h = cc
      stored policy (ok (d, t)) made h =
          let same : t ≡ s = cc in
          let kept : d ≡ db' = cc in
          let (terms, row) =
            create_share-policy lower decode c.clock c.now c.id db d user agent r.grantee_username
              (some (starts_at c r.valid_from)) r.valid_until policy t made in
          (
            sym (ap (λ (x : Share). x.policy) same) ∙ terms,
            subst (λ x. In x db'.shares) same (subst (λ (x : Db). In t x.shares) kept row),
          )

      normal :
          (o : Option String)
          → normalize_share_policy read_policy print_policy r.policy ≡ o
          → create_with_policy lower decode read_policy print_policy code details c db user agent r
              o
            ≡ (db', done s)
          → (p : SharePolicy) × (accepts_policy p ≡ true)
            × (s.policy ≡ json_or_empty decode (print_policy p))
            × In s db'.shares
      normal none given h = cc
      normal (some policy) given h =
          let (p, good, printed) =
            normalize_share_policy-accepted read_policy print_policy r.policy policy given in
          let (ends, rest) =
            if-eq_done (not (ends_after (starts_at c r.valid_from) r.valid_until)) db db' 400 _ h in
          let (terms, row) = stored policy _ refl rest in
          (p, good, terms ∙ ap (json_or_empty decode) printed, row)

  update_agent_share-policy :
      (now : ℕ) (db db' : Db) (user : ℕ) (id : String) (body : Option ShareRequest) (s : Share)
      → update_agent_share lower decode read_policy print_policy code details now db user id body
        ≡ (db', done s)
      → (p : SharePolicy) × (accepts_policy p ≡ true)
        × (s.policy
            ≡ json_or_empty decode (if len (print_policy p) == 0 then "{}" else print_policy p))
        × In s db'.shares
  unfolding update_agent_share update_with_policy after_transition
  update_agent_share-policy now db db' user id none s e = cc
  update_agent_share-policy now db db' user id (some r) s e =
      normal (normalize_share_policy read_policy print_policy r.policy) refl e
    where
      change : String → Change
      change policy = record {
        reason = "";
        policy = policy;
        valid_from = r.valid_from;
        valid_until = r.valid_until;
      }

      stored :
          (policy : String) (result : Result (Db × Share))
          → transition_share decode now db user id update (change policy) false ≡ result
          → after_transition db result ≡ (db', done s)
          → (s.policy ≡ json_or_empty decode (if len policy == 0 then "{}" else policy))
            × In s db'.shares
      stored policy (err failure) made h = cc
      stored policy (ok (d, t)) made h =
          let same : t ≡ s = cc in
          let kept : d ≡ db' = cc in
          let (terms, row) =
            transition_share-policy decode now db d user id (change policy) false t made in
          (
            sym (ap (λ (x : Share). x.policy) same) ∙ terms,
            subst (λ x. In x db'.shares) same (subst (λ (x : Db). In t x.shares) kept row),
          )

      normal :
          (o : Option String)
          → normalize_share_policy read_policy print_policy r.policy ≡ o
          → update_with_policy lower decode read_policy print_policy code details now db user id r o
            ≡ (db', done s)
          → (p : SharePolicy) × (accepts_policy p ≡ true)
            × (s.policy
                ≡ json_or_empty decode (if len (print_policy p) == 0 then "{}" else print_policy p))
            × In s db'.shares
      normal none given h = cc
      normal (some policy) given h =
          let (p, good, printed) =
            normalize_share_policy-accepted read_policy print_policy r.policy policy given in
          let (terms, row) = stored policy _ refl h in
          (
            p,
            good,
            terms ∙ ap (λ x. json_or_empty decode (if len x == 0 then "{}" else x)) printed,
            row,
          )

  -- A share that is created or updated through the API is stored with a daily limit of 1 to 1000 tasks, so
  -- the zero that the ledger of usage takes for no limit is not written: the share that the handler
  -- answers is a row of the table it leaves, and its limit is in that range. That the printed policy is
  -- not empty and that the limit of an accepted policy is read back are conditions.
  pub Gives-limited :
      (limit_of : String → ℤ) (db' : Db) (s : Share)
      → IsJson decode print_policy limit_of
      → Gives db' s
      → In s db'.shares × ((n : ℕ) × (limit_of s.policy ≡ ℤ.pos n) × (1 ≤ n) × (n ≤ 1000))
  Gives-limited limit_of db' s json (created c db user agent body e) =
      let (p, good, policy, row) = create_agent_share-policy c db db' user agent body s e in
      let (n, limit, low, high) = accepts_policy-limit p good in
      (row, (n, ap limit_of policy ∙ json.limit p good ∙ limit, low, high))
  Gives-limited limit_of db' s json (updated now db user id body e) =
      let (p, good, policy, row) = update_agent_share-policy now db db' user id body s e in
      let (n, limit, low, high) = accepts_policy-limit p good in
      let policy' : s.policy ≡ json_or_empty decode (print_policy p) =
        policy
        ∙ ap (λ b. json_or_empty decode (if b then "{}" else print_policy p)) (json.printed p) in
      (row, (n, ap limit_of policy' ∙ json.limit p good ∙ limit, low, high))
