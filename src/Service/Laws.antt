-- ===== src/Service/Laws.antt =====
-- How a handler that returned came to its end.
use kisauth.Base.{◌≡◌, refl, arith, ◌∷◌, ap, sym}
use kisauth.Redis.{Redis}
use kisauth.Service.{World, Handler, Outcome, reply, failed, follow, ◌>>=◌, emit, pure}
use kisauth.Events.{SecurityEvent}

pub reply_inj : {A : Type 0} {x y : A} → reply x ≡ reply y → x ≡ y
reply_inj e = cc

module _ {r : Redis} where
  -- The handler returns the value, in the state.
  abbrev pub Returns : {A : Type 0} → Handler r A → World r → A → World r → Type 0
  Returns m w a w' = m w ≡ (reply a, w')

  follow_returns :
      {A B : Type 0} (o : Outcome A × World r) (next : A → Handler r B) (b : B) (w' : World r)
      → follow o next ≡ (reply b, w')
      → (a : A) × (w'' : World r) × (o ≡ (reply a, w'')) × Returns (next a) w'' b w'
  follow_returns (reply a, w) next b w' h = (a, w, refl, h)
  follow_returns (failed e, w) next b w' h = ground arith

  pub bind_returns :
      {A B : Type 0} (m : Handler r A) (next : A → Handler r B) (w : World r) (b : B) (w' : World r)
      → Returns (m >>= next) w b w'
      → (a : A) × (w'' : World r) × Returns m w a w'' × Returns (next a) w'' b w'
  unfolding ◌>>=◌
  bind_returns m next w b w' h = follow_returns (m w) next b w' h

  pub returns_bind :
      {A B : Type 0} (m : Handler r A) (next : A → Handler r B) (w w'' w' : World r) (a : A) (b : B)
      → Returns m w a w''
      → Returns (next a) w'' b w'
      → Returns (m >>= next) w b w'
  unfolding ◌>>=◌
  returns_bind m next w w'' w' a b h k = rw (h, k)

  -- A handler that ends by reporting an event and returning.
  pub emit_returns :
      {A : Type 0} (event : SecurityEvent) (a b : A) (w w' : World r)
      → Returns (emit event >>= λ _. pure a) w b w'
      → (a ≡ b) × (w'.events ≡ event ∷ w.events)
  unfolding ◌>>=◌
  emit_returns event a b w w' h = (reply_inj (ap (λ x. x.0) h), ap (λ x. x.1.events) (sym h))

  pub emit_keeps :
      {A : Type 0} (event : SecurityEvent) (a b : A) (w w' : World r)
      → Returns (emit event >>= λ _. pure a) w b w'
      → w'.redis ≡ w.redis
  unfolding ◌>>=◌
  emit_keeps event a b w w' h = ap (λ x. x.1.redis) (sym h)
