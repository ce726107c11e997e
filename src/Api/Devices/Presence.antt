-- ===== src/Api/Devices/Presence.antt =====
-- A device of internal/api/server.go from its binding to its first report.
use echoear_cloud.Base.{
  ℕ, String, Bool, true, false, ◌≡◌, ◌<◌, ◌+◌, refl, inl, inr, Option, none, some, List, [], ◌∷◌,
  ◌++◌, ◌&&◌, arith, find, find-In, All, All-append, eq_iff, trim_space, is_empty, if◌then◌else◌,
  Bool-cases,
}
use text.Mathlib.TextPositions.{eq_refl}
use echoear_cloud.Database.Rows.{Result, ok, err, update_where}
use echoear_cloud.Database.Devices.{
  Device, DeviceInput, Heartbeat, has_uid, is_active, equals, nullable_ip, normalize_uid, excluded,
  rebind, upsert, Bound, bound, conflict, is_taken, bind_row, bind_device, beat, owned,
  update_returning,
}
use echoear_cloud.Database.Devices.Credentials.{
  device_access_ttl, set_tokens, issue_tokens, admits, presence,
}
use echoear_cloud.Database.Devices.Found.{find-update_new}
use echoear_cloud.Database.Devices.Owner.{bind_device-row, bind_device-IsBound}
use echoear_cloud.Api.Http.{done, if-eq_done}
use echoear_cloud.Api.Devices.{
  Moment, Granted, new_tokens, with_tokens, after_bind, bind_device_handler, bearer_token,
  with_bearer, report_presence, device_presence,
}

-- No device lets the token in, whatever its state.
abbrev pub IsFresh : String → List Device → Type 0
IsFresh hashed ds = All (λ d. equals d.access_token_hash hashed ≡ false) ds

rebind-IsFresh :
    (hashed : String) (now : ℕ) (new : Device) (p : Device → Bool) (ds : List Device)
    → IsFresh hashed ds
    → IsFresh hashed (update_where p (rebind now new) ds)
unfolding rebind
rebind-IsFresh hashed now new p [] h = tt
rebind-IsFresh hashed now new p (d ∷ ds) (off, h) =
    (ground (arith, off), rebind-IsFresh hashed now new p ds h)

bind_row-IsFresh :
    (hashed : String) (now : ℕ) (ds ds' : List Device) (user : ℕ) (new d : Device)
    → new.access_token_hash ≡ none
    → IsFresh hashed ds
    → bind_row now ds user new ≡ bound ds' d
    → IsFresh hashed ds'
unfolding bind_row upsert
bind_row-IsFresh hashed now ds ds' user new d bare h e = go (find (has_uid new.device_uid) ds) refl
  where
    go : (old : Option Device) → find (has_uid new.device_uid) ds ≡ old → IsFresh hashed ds'
    go none o =
        let stored : bound (ds ++ new ∷ []) new ≡ bound ds' d =
          rw (o, bind_row, upsert, if◌then◌else◌) at e in
        let rows : ds ++ new ∷ [] ≡ ds' = ground arith in
        rw (← rows) (
          All-append (λ x. equals x.access_token_hash hashed ≡ false) ds (new ∷ []) h
            (rw bare refl, tt))
    go (some old) o = elim (Bool-cases (is_taken user (some old))) [
      | inl taken ↦ cc (rw (o, bind_row, upsert, taken, if◌then◌else◌) at e)
      | inr free ↦
          let stored : bound (update_where (has_uid new.device_uid) (rebind now new) ds)
                (rebind now new old)
              ≡ bound ds' d =
            rw (o, bind_row, upsert, free, if◌then◌else◌) at e in
          let rows : update_where (has_uid new.device_uid) (rebind now new) ds ≡ ds' =
            ground arith in
          rw (← rows) (rebind-IsFresh hashed now new (has_uid new.device_uid) ds h)
    ]

module _ (upper hash : String → String) (parse_ip : String → Bool)
    (decode : String → Option String) where
  bind_device-IsFresh :
      (hashed : String) (now id : ℕ) (ds ds' : List Device) (user : ℕ) (input : DeviceInput)
      (d : Device)
      → IsFresh hashed ds
      → bind_device upper hash parse_ip decode now id ds user input ≡ ok (bound ds' d)
      → IsFresh hashed ds'
  unfolding excluded
  bind_device-IsFresh hashed now id ds ds' user input d h e =
      let (ip, row) =
        bind_device-row upper hash parse_ip decode now id ds user input (bound ds' d) e in
      bind_row-IsFresh hashed now ds ds' user
        (excluded hash decode now id user (normalize_uid upper input.device_uid) ip input) d refl h
        row

  IsFresh-admits :
      (access : String) (later : ℕ) (ds : List Device)
      → trim_space access ≡ access
      → IsFresh (hash access) ds
      → All (λ d. admits upper hash later access d ≡ false) ds
  IsFresh-admits access later [] plain h = tt
  IsFresh-admits access later (d ∷ ds) plain (off, h) =
      (rw plain (ground (arith, off)), IsFresh-admits access later ds plain h)

  -- The tokens that are issued make their device the one that the access token lets in.
  find-issued :
      (m : Moment) (ds : List Device) (user : ℕ) (uid : String) (d : Device) (later : ℕ)
      → find (has_uid (normalize_uid upper uid)) ds ≡ some d
      → owned user (normalize_uid upper uid) d ≡ true
      → is_active d ≡ true
      → IsFresh (hash m.access) ds
      → trim_space m.access ≡ m.access
      → later < m.clock + device_access_ttl
      → find
          (admits upper hash later m.access)
          (issue_tokens upper hash m.now m.clock ds user uid m.refresh m.access).0
        ≡ some (set_tokens m.now m.clock (hash m.refresh) (hash m.access) d)
  unfolding issue_tokens update_returning set_tokens
  find-issued m ds user uid d later found own live fresh plain soon =
      find-update_new (normalize_uid upper uid)
        (λ x. owned user (normalize_uid upper uid) x && is_active x)
        (admits upper hash later m.access)
        (set_tokens m.now m.clock (hash m.refresh) (hash m.access)) ds d (λ x h. ground arith)
        (IsFresh-admits m.access later ds plain fresh) found (rw (own, live) refl)
        (rw plain (ground (arith, eq_refl (hash m.access), live, soon)))

  bind_device_handler-bound :
      (m : Moment) (base_url : String) (ds ds1 : List Device) (user : ℕ) (input : DeviceInput)
      (g : Granted)
      → bind_device_handler upper hash parse_ip decode m base_url ds user (some input)
        ≡ (ds1, done g)
      → (ds' : List Device) × (bind_device upper hash parse_ip decode m.now m.next_id ds user input
          ≡ ok (bound ds' g.device))
        × (ds1
            ≡ (issue_tokens upper hash m.now m.clock ds' user input.device_uid m.refresh
                m.access).0)
        × (g.tokens ≡ new_tokens m)
  unfolding bind_device_handler after_bind with_tokens
  bind_device_handler-bound m base_url ds ds1 user input g e =
      let (given, rest) = if-eq_done (is_empty input.device_uid) ds ds1 400 _ e in
      binding (bind_device upper hash parse_ip decode m.now m.next_id ds user input) refl rest
    where
      issuing :
          (ds' : List Device) (d : Device) (r : List Device × Option Device)
          → bind_device upper hash parse_ip decode m.now m.next_id ds user input ≡ ok (bound ds' d)
          → issue_tokens upper hash m.now m.clock ds' user input.device_uid m.refresh m.access ≡ r
          → with_tokens m base_url d r ≡ (ds1, done g)
          → (ds' : List Device) × (bind_device upper hash parse_ip decode m.now m.next_id ds user
                input
              ≡ ok (bound ds' g.device))
            × (ds1
                ≡ (issue_tokens upper hash m.now m.clock ds' user input.device_uid m.refresh
                    m.access).0)
            × (g.tokens ≡ new_tokens m)
      issuing ds' d (rows, none) b i h = cc
      issuing ds' d (rows, some updated) b i h = (ds', cc, cc, cc)

      binding :
          (r : Result Bound)
          → bind_device upper hash parse_ip decode m.now m.next_id ds user input ≡ r
          → after_bind upper hash parse_ip decode m base_url ds user input.device_uid r
            ≡ (ds1, done g)
          → (ds' : List Device) × (bind_device upper hash parse_ip decode m.now m.next_id ds user
                input
              ≡ ok (bound ds' g.device))
            × (ds1
                ≡ (issue_tokens upper hash m.now m.clock ds' user input.device_uid m.refresh
                    m.access).0)
            × (g.tokens ≡ new_tokens m)
      binding (err failure) b h = cc
      binding (ok conflict) b h = cc
      binding (ok (bound ds' d)) b h =
          issuing ds' d
            (issue_tokens upper hash m.now m.clock ds' user input.device_uid m.refresh m.access) b
            refl h

  -- A device that a user has bound is let in with the access token of the answer, until that token
  -- expires, and its report is taken as one of that user's device under the normalised uid. That no
  -- device has a token with the same hash yet, and that the token is not blank at an end, are conditions.
  pub device_presence-bind_device_handler :
      (fold : String → String) (m : Moment) (base_url : String) (ds ds1 : List Device) (user : ℕ)
      (input : DeviceInput) (g : Granted) (later : ℕ) (header : String) (report : Heartbeat)
      (ip : Option String)
      → bind_device_handler upper hash parse_ip decode m base_url ds user (some input)
        ≡ (ds1, done g)
      → IsFresh (hash m.access) ds
      → trim_space m.access ≡ m.access
      → bearer_token fold header ≡ some g.tokens.access_token
      → later < m.clock + device_access_ttl
      → nullable_ip parse_ip report.last_ip ≡ ok ip
      → (ds2 : List Device) × (d : Device) × (device_presence upper hash parse_ip decode fold later
            ds1 header
            (some report)
          ≡ (ds2, done d))
        × (d.device_uid ≡ normalize_uid upper input.device_uid)
        × (d.user_id ≡ user)
        × (d.last_seen_at ≡ some later)
  unfolding device_presence with_bearer report_presence presence update_returning beat set_tokens
  device_presence-bind_device_handler fold m base_url ds ds1 user input g later header report ip e
        fresh plain shown soon address =
      let (ds', b, rows, tokens) = bind_device_handler-bound m base_url ds ds1 user input g e in
      let is =
        bind_device-IsBound upper hash parse_ip decode m.now m.next_id ds ds' user input g.device
          b in
      let fresh' =
        bind_device-IsFresh (hash m.access) m.now m.next_id ds ds' user input g.device fresh b in
      let (i, named) = find-In (has_uid (normalize_uid upper input.device_uid)) ds' is.found in
      let uid : g.device.device_uid ≡ normalize_uid upper input.device_uid =
        (eq_iff g.device.device_uid (normalize_uid upper input.device_uid)).0 named in
      let own : owned user (normalize_uid upper input.device_uid) g.device ≡ true =
        ground (arith, is.of_user, named) in
      let live : is_active g.device ≡ true = rw is.active refl in
      let issued : Device = set_tokens m.now m.clock (hash m.refresh) (hash m.access) g.device in
      let found : find (admits upper hash later m.access) ds1 ≡ some issued = rw rows (
        find-issued m ds' user input.device_uid g.device later is.found own live fresh' plain
          soon) in
      let shown' : bearer_token fold header ≡ some m.access = rw tokens at shown in
      (
        update_where (admits upper hash later m.access) (beat later ip report) ds1,
        beat later ip report issued,
        rw (shown', address) (rw found refl),
        uid,
        is.of_user,
        refl,
      )
