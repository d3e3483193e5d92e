-- ===== src/Adapter/Config/Accepted.antt =====
-- What ParseDSN accepts.
use cubesql_go_driver.Prelude.{
  ℤ, pos, false, Bool, Option, none, some, Bytes, ascii, contains, is_empty, ◌≡◌, ◌≤ℤ◌, arith, refl,
}
use cubesql_go_driver.Prelude.Action.{Outcome, ok, err}
use cubesql_go_driver.Prelude.Result.{
  ◌>>=◌, Holds, Holds-bind, Holds-returned, Holds-refuse_if, Holds-require,
}
use cubesql_go_driver.Adapter.Types.{Reason}
use cubesql_go_driver.Adapter.Config.{
  Config, Url, UserInfo, validate_config, parse_url, parse_dsn, parse_port, parse_timeout,
  parse_encryption, check_keys, get, built, validated,
}

-- The configurations that ParseDSN returns.
pub record Acceptable (c : Config) : Type 0 where
  pub port_range : (pos 1 ≤ℤ c.options.port) × (c.options.port ≤ℤ pos 65535)
  pub timeout_sign : pos 0 ≤ℤ c.options.timeout
  pub host_given : is_empty c.options.host ≡ false
  pub one_segment : contains c.database (ascii "/") ≡ false
  pub valid : validate_config c ≡ none

Holds-parse_port :
    (is_ip : Bytes → Bool) (url : Url)
    → Holds (λ n. (pos 1 ≤ℤ n) × (n ≤ℤ pos 65535)) (parse_port is_ip url)
unfolding parse_port ◌>>=◌
Holds-parse_port is_ip url = ground arith

Holds-parse_timeout :
    (parse_duration : Bytes → Option ℤ) (text : Bytes)
    → Holds (λ n. pos 0 ≤ℤ n) (parse_timeout parse_duration text)
unfolding parse_timeout ◌>>=◌
Holds-parse_timeout parse_duration text = ground arith

Holds-any : {E A : Type 0} (r : Outcome E A) → Holds (λ _. Unit {0}) r
Holds-any (ok a) = tt
Holds-any (err e) = tt

Holds-validated :
    (c : Config) (P : Config → Type 0)
    → (validate_config c ≡ none → P c)
    → (r : Option Reason) → validate_config c ≡ r
    → Holds P (validated c r)
Holds-validated c P k none same = k same
Holds-validated c P k (some e) same = tt

module _ (is_ip : Bytes → Bool) (parse_duration : Bytes → Option ℤ) where
  Holds-parse_url : (url : Url) → Holds Acceptable (parse_url is_ip parse_duration url)
  unfolding parse_url
  Holds-parse_url url = Holds-bind Acceptable _ _ _ (Holds-refuse_if _ _) λ _ _.
      Holds-bind Acceptable _ _ _ (Holds-require url.user _) λ (user : UserInfo) _.
        Holds-bind Acceptable _ _ _ (Holds-refuse_if _ _) λ _ _.
          Holds-bind Acceptable _ _ _ (Holds-require user.password _) λ password _.
            Holds-bind Acceptable _ _ _ (Holds-refuse_if (is_empty url.hostname) _) λ _ host.
              Holds-bind Acceptable _ _ _ (Holds-parse_port is_ip url) λ port range.
                Holds-bind Acceptable _ _ _ (Holds-refuse_if _ _) λ _ segment.
                  Holds-bind Acceptable _ _ _ (Holds-any (check_keys url.query)) λ _ _.
                    Holds-bind Acceptable _ _ _ (Holds-parse_timeout parse_duration _)
                      λ timeout sign.
                        Holds-bind Acceptable (λ _. Unit {0}) _ _
                          (Holds-any (parse_encryption (get url.query (ascii "encryption"))))
                          λ encryption _.
                            Holds-validated (built url user password port timeout encryption)
                              Acceptable
                              (λ valid. record {
                                port_range = range;
                                timeout_sign = sign;
                                host_given = host;
                                one_segment = segment;
                                valid = valid;
                              })
                              _ refl

  -- A configuration that ParseDSN returns names a host, a port from 1 to 65535, a timeout that is not
  -- negative and a database of one path segment, and it passes `Config.Validate`.
  pub parse_dsn-Acceptable :
      (url_parse : Bytes → Option Url) (dsn : Bytes) (c : Config)
      → parse_dsn is_ip parse_duration url_parse dsn ≡ ok c
      → Acceptable c
  unfolding parse_dsn
  parse_dsn-Acceptable url_parse dsn c h =
      Holds-returned Acceptable (parse_dsn is_ip parse_duration url_parse dsn) c
        (Holds-bind Acceptable _ _ _ (Holds-require (url_parse dsn) _) λ url _. Holds-parse_url url)
        h
