-- ===== src/Config/Sound.antt =====
-- What `Load` of internal/config/config.go accepts.
use echoear_cloud.Base.{
  ℕ, String, Bool, true, false, ◌≡◌, ◌≤◌, refl, ◌⊎◌, inl, inr, Option, none, some, List, [], ◌∷◌,
  not, length, map, select, trim_space, trim_space_idem, is_empty, ℤ, All, arith, Bool-cases,
}
use echoear_cloud.Config.{
  split_comma, or_any, split_csv, Url, Loaded, rejected, loaded, valid_access_ticket_seed, Config,
  env, read_port, normalize_public_base_url, load_with, config_with, signing_key_fits, load_port,
  load,
}

-- An entry of a list that is separated by commas.
abbrev pub IsItem : String → Type 0
IsItem item = (is_empty item ≡ false) × (trim_space item ≡ item)

select-IsItem :
    (parts : List String) → All IsItem (select (λ item. not (is_empty item)) (map trim_space parts))
select-IsItem [] = tt
select-IsItem (part ∷ parts) = elim (Bool-cases (is_empty (trim_space part))) [
  | inl empty ↦ rw empty (select-IsItem parts)
  | inr kept ↦ rw kept ((kept, trim_space_idem part), select-IsItem parts)
]

or_any-IsItem :
    (items : List String)
    → All IsItem items
    → All IsItem (or_any items) × (1 ≤ length (or_any items))
unfolding trim_space
or_any-IsItem [] h = (((refl, refl), tt), omega arith)
or_any-IsItem (item ∷ items) h = (h, omega arith)

pub split_csv-IsItem :
    (value : String) → All IsItem (split_csv value) × (1 ≤ length (split_csv value))
unfolding split_csv
split_csv-IsItem value =
    or_any-IsItem (select (λ item. not (is_empty item)) (map trim_space (split_comma value)))
      (select-IsItem (split_comma value))

read_port_within : (o : Option ℤ) (port : ℕ) → read_port o ≡ some port → (1 ≤ port) × (port ≤ 65535)
read_port_within none port e = cc
read_port_within (some (ℤ.pos n)) port e = ground arith
read_port_within (some (ℤ.negsuc n)) port e = cc

-- A configuration that is good to serve with.
pub record IsSound (seed : String → Bool) (c : Config) : Type 0 where
  pub port : (1 ≤ c.http_port) × (c.http_port ≤ 65535)
  pub origins : All IsItem c.allowed_origins
  pub some_origin : 1 ≤ length c.allowed_origins
  pub key :
      (is_empty c.access_ticket_signing_key ≡ true) ⊎ (seed c.access_ticket_signing_key ≡ true)

module _ (getenv : String → String) (atoi : String → Option ℤ) (url_parse : String → Option Url)
    (url_string : Url → String) (raw_url std : String → Option (List ℕ))
    (postgres_url : String) where
  load_with-IsSound :
      (port : ℕ) (base : Loaded String) (c : Config)
      → (1 ≤ port) × (port ≤ 65535)
      → load_with getenv atoi url_parse url_string raw_url std postgres_url port base ≡ loaded c
      → IsSound (valid_access_ticket_seed raw_url std) c
  unfolding load_with config_with
  load_with-IsSound port (rejected failure) c within e = cc
  load_with-IsSound port (loaded base) c within e =
      elim (Bool-cases
        (signing_key_fits getenv atoi url_parse url_string raw_url std postgres_url)) [
          | inr bad ↦ cc (rw (load_with, config_with, signing_key_fits, bad) at e)
          | inl fits ↦
              let same : config_with getenv atoi url_parse url_string raw_url std postgres_url port
                    base
                  ≡ c =
                given (rw (load_with, config_with, signing_key_fits, fits) at e) in
              let (items, one) = split_csv-IsItem (env getenv "CORS_ALLOWED_ORIGINS" "*") in
              rw (← same)
                (record { port = within; origins = items; some_origin = one; key = ground arith })
        ]
    where
      given : {x y : Config} → loaded x ≡ loaded y → x ≡ y
      given h = cc

  -- A service that starts has a port of 1 to 65535, at least one allowed origin, each of them trimmed and not
  -- empty, and a signing key that is left out or is a seed of 32 bytes.
  pub load-IsSound :
      (c : Config)
      → load getenv atoi url_parse url_string raw_url std postgres_url ≡ loaded c
      → IsSound (valid_access_ticket_seed raw_url std) c
  unfolding load load_port
  load-IsSound c e = go (read_port (atoi (env getenv "HTTP_PORT" "8080"))) refl e
    where
      go :
          (o : Option ℕ)
          → read_port (atoi (env getenv "HTTP_PORT" "8080")) ≡ o
          → load_port getenv atoi url_parse url_string raw_url std postgres_url o ≡ loaded c
          → IsSound (valid_access_ticket_seed raw_url std) c
      go none read h = cc
      go (some port) read h =
          load_with-IsSound port
            (normalize_public_base_url url_parse url_string (getenv "PUBLIC_BASE_URL")) c
            (read_port_within (atoi (env getenv "HTTP_PORT" "8080")) port read) h
