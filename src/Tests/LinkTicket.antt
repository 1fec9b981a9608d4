-- ===== src/Tests/LinkTicket.antt =====
-- Link tickets on the store in memory.
use kisauth.Base.{String, Option, some, none, str_eq, if◌then◌else◌, [], ◌∷◌, refl, arith}
use kisauth.Base.Int.{pos}
use kisauth.Base.Number.{whole}
use kisauth.Base.Texts.{◌++◌}
use kisauth.Json.{Json, str, num, obj, field, end}
use kisauth.Redis.Memory.{memory, nothing}
use kisauth.LinkTicket.{split, split_from, read_payload}
use kisauth.LinkTicket.Genuine.{IsGenuine}
use kisauth.Traffic.{claim_nonce, drop_session}
use kisauth.Traffic.Trace.{Trace}

abbrev hash : String → String → String
hash secret text = secret ++ text

abbrev decode : String → Option Json
decode text =
    if str_eq text "p"
    then some (
        obj (
          field "kisUserId" (str "u1")
            (field "nonce" (str "n1") (field "exp" (num (whole (pos 120))) end))))
    else none

abbrev between : Trace
between = (70000, drop_session "s") ∷ (80000, claim_nonce "n2" 5) ∷ []

genuine : IsGenuine memory hash decode 60000 60500 "p.kp" "k" nothing "u1"
unfolding split split_from read_payload
genuine = record {
  encoded = "p";
  signature = "kp";
  value = obj (
      field "kisUserId" (str "u1")
        (field "nonce" (str "n1") (field "exp" (num (whole (pos 120))) end)));
  payload = record { kis_user_id = "u1"; nonce = "n1"; exp = whole (pos 120) };
  exp = 120;
  parts = refl;
  signed = refl;
  decoded = refl;
  fields = refl;
  for_user = refl;
  expires = refl;
  unexpired = omega arith;
  fits = omega arith;
  unclaimed = refl;
}
