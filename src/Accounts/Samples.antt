-- ===== src/Accounts/Samples.antt =====
-- Witnesses of the theorems on accounts.
use smart_gate.Base.{
  Option, Text, Text-discrete, [], codes, none, refl, some, ℕ, ◌==◌, ◌≡◌, ◌⊎◌, if◌then◌else◌,
}
use smart_gate.Base.Map.{empty, put}
use smart_gate.Warm.Sessions.{Result, err}
use smart_gate.Accounts.Checks.{Failure, normalize_email}
use smart_gate.Accounts.Database.{Accounts, Verification}
use smart_gate.Accounts.Register.{Fresh, RegisterRequest, Times, register}
use smart_gate.Accounts.Attempts.{register-unchanged}
use smart_gate.Accounts.Verified.{IsVerified, register-IsVerified}

abbrev hash : Text → Text
hash t = t

abbrev works : ℕ → Option Text
works n = none

abbrev ids : Fresh
ids = record { user_id = codes "u"; org_id = codes "o"; project_id = codes "p"; token = codes "t" }

abbrev times : Times
times = record { now = 5; started = 6; later = 7 }

abbrev sent : Verification
sent = record {
  code_hash = codes "smartgate-email-verification-v1:a@b.c:123456";
  attempts = 0;
  sent_at = 1;
  expires_at = 100;
  used_at = none;
}

abbrev accounts : Accounts
accounts = record {
  verifications = put Text-discrete empty (codes "a@b.c") (some sent);
  users = [];
  orgs = [];
  projects = [];
  memberships = [];
  sessions = [];
}

abbrev with_code : Text → RegisterRequest
with_code code = record {
  email = codes "a@b.c";
  password = codes "long enough";
  verification_code = code;
}

abbrev answer_to : RegisterRequest → Result Failure Text × Accounts
answer_to r = register hash hash 1000 works ids times r accounts

abbrev refusal : Failure
refusal = record { status = 400; message = codes "The verification code is invalid or expired" }

wrong : (answer_to (with_code (codes "654321"))).0 ≡ err refusal
unfolding register put Text-discrete
wrong = refl

register-unchanged_example : (answer_to (with_code (codes "654321"))).1 ≡ accounts
register-unchanged_example =
    register-unchanged hash hash 1000 works ids times (with_code (codes "654321")) accounts refusal
      wrong refl

-- The account is made, and then its session cannot be stored.
abbrev no_session : ℕ → Option Text
no_session n = if n == 9 then some (codes "gone") else none

register-IsVerified_example :
    ((register hash hash 1000 no_session ids times (with_code (codes "123456")) accounts).1.users
      ≡ [])
    ⊎ IsVerified hash hash 1000 no_session ids times (with_code (codes "123456")) (some sent)
unfolding put Text-discrete normalize_email
register-IsVerified_example =
    register-IsVerified hash hash 1000 no_session ids times (with_code (codes "123456")) accounts
