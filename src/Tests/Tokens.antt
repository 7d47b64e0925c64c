-- ===== src/Tests/Tokens.antt =====
-- A codec of tokens that writes every claim out and checks the times, and the tokens of a user under it.
use proyecto_1_back.Prelude.{
  ℕ, zero, suc, ◌≡◌, refl, ◌&&◌, Bool, true, leb, Option, none, some, List, [], ◌∷◌, ◌++◌, length,
  take, drop, ap, ◌∙◌, arith, if◌then◌else◌,
}
use proyecto_1_back.Http.{Result, ok, err, jwt_error, unauthorized}
use proyecto_1_back.Text.{Text, codes}
use proyecto_1_back.Env.{Env, Payload}
use proyecto_1_back.Models.{Time}
use proyecto_1_back.Security.{create_access_token, create_refresh_token, get_current_user_id}
use proyecto_1_back.Security.Kinds.{
  Since, Until, IsJose, access_token_authenticates, refresh_token_authenticates_nobody,
}
use proyecto_1_back.Tests.Sample.{env}

abbrev Token : Type 0
Token = List ℕ

-- a claim in front of the rest of the token, and taken off it again
abbrev put_text : Option Text → Token → Token
put_text none t = 0 ∷ t
put_text (some s) t = suc (length s) ∷ (s ++ t)

abbrev take_text : Token → Option Text × Token
take_text [] = (none, [])
take_text (zero ∷ t) = (none, t)
take_text (suc n ∷ t) = (some (take n t), drop n t)

abbrev put_time : Option Time → Token → Token
put_time none t = 0 ∷ t
put_time (some n) t = suc n ∷ t

abbrev take_time : Token → Option Time × Token
take_time [] = (none, [])
take_time (zero ∷ t) = (none, t)
take_time (suc n ∷ t) = (some n, t)

take-append : (s t : List ℕ) → take (length s) (s ++ t) ≡ s
take-append [] [] = refl
take-append [] (x ∷ t) = refl
take-append (x ∷ s) t = ap (λ (r : List ℕ). x ∷ r) (take-append s t)

drop-append : (s t : List ℕ) → drop (length s) (s ++ t) ≡ t
drop-append [] t = refl
drop-append (x ∷ s) t = drop-append s t

text_back : (c : Option Text) (t : Token) → take_text (put_text c t) ≡ (c, t)
text_back none t = refl
text_back (some s) t = rw (take-append s t, drop-append s t) refl

time_back : (c : Option Time) (t : Token) → take_time (put_time c t) ≡ (c, t)
time_back none t = refl
time_back (some n) t = refl

abbrev encode : Payload → Token
encode p =
    put_text p.sub
      (put_text p.email (put_text p.kind (put_text p.jti (put_time p.nbf (put_time p.exp [])))))

abbrev is_since : Option Time → Time → Bool
is_since none now = true
is_since (some nbf) now = leb nbf now

abbrev is_until : Option Time → Time → Bool
is_until none now = true
is_until (some exp) now = leb now exp

abbrev read_claims : Token → Payload
read_claims t =
    let sub = take_text t in
    let email = take_text sub.1 in
    let kind = take_text email.1 in
    let jti = take_text kind.1 in
    let nbf = take_time jti.1 in
    record {
      sub = sub.0;
      email = email.0;
      kind = kind.0;
      iat = none;
      nbf = nbf.0;
      exp = (take_time nbf.1).0;
      jti = jti.0;
    }

abbrev in_time : Time → Payload → Result Payload
in_time now p = if is_since p.nbf now && is_until p.exp now then ok p else err jwt_error

abbrev decode : Time → Token → Result Payload
decode now t = in_time now (read_claims t)

abbrev codec : Env
codec = record env { jwt_encode = encode; jwt_decode = decode }

read_back : (p : Payload) → read_claims (encode p) ≡ record p { iat = none }
read_back p = rw (text_back p.sub _) (
    rw (text_back p.email _) (
      rw (text_back p.kind _)
        (rw (text_back p.jti _) (rw (time_back p.nbf _) (rw (time_back p.exp []) refl)))))

since : (c : Option Time) (now : Time) → Since c now → is_since c now ≡ true
since none now h = refl
since (some nbf) now h = ground (arith, h)

until : (c : Option Time) (now : Time) → Until c now → is_until c now ≡ true
until none now h = refl
until (some exp) now h = ground (arith, h)

live :
    (p : Payload) (now : Time)
    → Since p.nbf now × Until p.exp now
    → in_time now (record p { iat = none }) ≡ ok (record p { iat = none })
live p now h = rw (since p.nbf now h.0, until p.exp now h.1) refl

codec-IsJose : IsJose codec
codec-IsJose = record {
  keeps = λ p now h. record {
    payload = record p { iat = none };
    is = ap (in_time now) (read_back p) ∙ live p now h;
    sub = refl;
    email = refl;
    kind = refl;
    jti = refl;
  };
}

access_token_authenticates_example :
    get_current_user_id codec 13 (create_access_token codec 12 (101 ∷ []) 1 (codes "ana@x")) ≡ ok 1
access_token_authenticates_example =
    access_token_authenticates codec codec-IsJose 12 13 (101 ∷ []) 1 (codes "ana@x") (omega arith)
      (omega arith) refl

refresh_token_authenticates_nobody_example :
    get_current_user_id codec 13 (create_refresh_token codec 12 (102 ∷ []) 1 (codes "ana@x"))
    ≡ err (unauthorized "token_expired")
refresh_token_authenticates_nobody_example =
    refresh_token_authenticates_nobody codec codec-IsJose 12 13 (102 ∷ []) 1 (codes "ana@x")
      (omega arith) (omega arith)
