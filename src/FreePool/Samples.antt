-- ===== src/FreePool/Samples.antt =====
-- Two claims of one address within an hour, under a limit of one key an hour.
use smart_gate.FreePool.Usable.{check_free_key-claim}
use smart_gate.Context.Trim.{IsDark}
use smart_gate.FreePool.Window.{check_and_record_ip_claim, pop_old}
use smart_gate.FreePool.Check.{check_free_key, usable, shown}
use smart_gate.Base.{All, Option, Text, [], arith, codes, none, refl, some, true, ℕ, ◌∷◌, ◌≡◌}
use smart_gate.Base.Int.{pos}
use smart_gate.Base.Headers.{Headers}
use smart_gate.Context.Text.{is_whitespace, take}
use smart_gate.FreePool.Claim.{
  ClaimKeyResponse, FreeTokenPoolConfig, Outside, claim_free_key, drop, granted, issue, key_name_of,
  response_of,
}
use smart_gate.FreePool.Covers.{IsHourly}
use smart_gate.FreePool.Hourly.{Reach-IsHourly, System, claim, init, settle, start}
use smart_gate.FreePool.Answers.{Tells, claim_free_key-Tells}

abbrev config : FreeTokenPoolConfig ℕ
config = record {
  enabled = true;
  default_rpm_limit = pos 10;
  default_concurrency_limit = pos 2;
  default_daily_spend_limit = 5;
  max_keys_per_ip_per_hour = pos 1;
  project_id = codes "free";
}

abbrev outside : Outside ℕ
outside = record {
  config = some config;
  random_key = codes "0123456789abcdef";
  random_id = codes "id";
  inserts = true;
  models = none;
}

abbrev no_headers : Headers
no_headers name = none

abbrev plain_hash : Text → Text
plain_hash t = t

abbrev first : System ℕ
first =
    settle outside no_headers 5 [] (claim_free_key plain_hash outside no_headers none 5 init.world)

abbrev second_claim : System ℕ
second_claim =
    settle outside no_headers 9 first.log
      (claim_free_key plain_hash outside no_headers (some (codes "mine")) 9 first.world)

Reach-IsHourly_example : IsHourly second_claim.log
Reach-IsHourly_example = Reach-IsHourly plain_hash (
    claim first outside no_headers (some (codes "mine")) 9 (omega arith)
      (claim init outside no_headers none 5 (omega arith) start))

claim_free_key-Tells_example :
    Tells plain_hash outside init.world
      (claim_free_key plain_hash outside no_headers none 5 init.world)
claim_free_key-Tells_example = claim_free_key-Tells plain_hash outside no_headers none 5 init.world

abbrev unused : Text → Option (ℕ × ℕ)
unused id = some (0, 0)

abbrev response : ClaimKeyResponse ℕ
response =
    response_of plain_hash config (codes "sg-free-0123456789abcdef") (codes "Free Key (01234567)")
      (codes "smartgate/auto" ∷ [])

given : (claim_free_key plain_hash outside no_headers none 5 init.world).1 ≡ granted response
unfolding claim_free_key check_and_record_ip_claim pop_old issue key_name_of take drop
given = refl

key-IsDark : All IsDark outside.random_key
unfolding is_whitespace
key-IsDark = (
  refl,
  (
    refl,
    (
      refl,
      (
        refl,
        (
          refl,
          (
            refl,
            (refl, (refl, (refl, (refl, (refl, (refl, (refl, (refl, (refl, (refl, tt)))))))))),
          ),
        ),
      ),
    ),
  ),
)

check_free_key-claim_example :
    check_free_key plain_hash unused true response.api_key
      (claim_free_key plain_hash outside no_headers none 5 init.world).0
    ≡ usable
        (shown plain_hash unused response.key_prefix response.name true response.quota (codes "id"))
check_free_key-claim_example =
    check_free_key-claim plain_hash unused outside no_headers none 5 init.world response key-IsDark
      given
