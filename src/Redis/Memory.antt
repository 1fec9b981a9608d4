-- ===== src/Redis/Memory.antt =====
-- A store in memory that behaves as the laws of `Redis` say: they can be met.
use kisauth.Base.{
  ℕ, ◌+◌, ◌-◌, ◌*◌, ◌/◌, ◌≤◌, Bool, true, false, String, Option, none, some, ◌≡◌, refl, arith, ltb,
  is_some, str_eq, eq_iff, if◌then◌else◌,
}
use kisauth.Base.Int.{ℤ, pos, negsuc}
use kisauth.Records.{Stored, number, ◌>>=◌}
use kisauth.Redis.{Redis, next_count, while_live}

-- A value with the time at which it is gone.
pub record Cell : Type 0 where
  pub value : Stored
  pub deadline : Option ℕ

abbrev pub Cells : Type 0
Cells = String → Option Cell

abbrev alive : ℕ → Option ℕ → Bool
alive t none = true
alive t (some d) = ltb t d

abbrev seen : ℕ → Option Cell → Option Stored
seen t none = none
seen t (some c) = if alive t c.deadline then some c.value else none

abbrev write : String → Option Cell → Cells → Cells
write k c σ j = if str_eq k j then c else σ j

abbrev get : ℕ → String → Cells → Option Stored
get t k σ = seen t (σ k)

abbrev set_ex : ℕ → String → Stored → ℕ → Cells → Cells
set_ex now k v s σ = write k (some (record { value = v; deadline = some (now + s * 1000) })) σ

abbrev set_nx : ℕ → String → Stored → ℕ → Cells → Bool × Cells
set_nx now k v s σ = if is_some (get now k σ) then (false, σ) else (true, set_ex now k v s σ)

abbrev ttl_of : ℕ → Option Cell → ℤ
ttl_of t none = negsuc 1
ttl_of t (some c) = elim c.deadline [
  | none ↦ negsuc 0
  | some d ↦ if ltb t d then pos ((d - t + 500) / 1000) else negsuc 1
]

abbrev ttl : ℕ → String → Cells → ℤ
ttl t k σ = ttl_of t (σ k)

abbrev deadline_at : ℕ → Option Cell → Option ℕ
deadline_at t none = none
deadline_at t (some c) = if alive t c.deadline then c.deadline else none

abbrev bump : ℕ → String → Option ℕ → Cells → Option (ℕ × Cells)
bump t k none σ = none
bump t k (some n) σ =
    some (n, write k (some (record { value = number n; deadline = deadline_at t (σ k) })) σ)

abbrev incr : ℕ → String → Cells → Option (ℕ × Cells)
incr t k σ = bump t k (next_count (get t k σ)) σ

abbrev expire : ℕ → String → ℕ → Cells → Cells
expire t k s σ = elim (get t k σ) [
  | none ↦ σ
  | some v ↦ write k (some (record { value = v; deadline = some (t + s * 1000) })) σ
]

pub seen_earlier :
    (t t' : ℕ) (c : Option Cell) (v : Stored) → t ≤ t' → seen t' c ≡ some v → seen t c ≡ some v
seen_earlier t t' none v h e = e
seen_earlier t t' (some c) v h e = ground arith

pub ttl_of_live : (t : ℕ) (c : Option Cell) (n : ℕ) → ttl_of t c ≡ pos n → is_some (seen t c) ≡ true
ttl_of_live t none n e = ground arith
ttl_of_live t (some c) n e = ground arith

pub bump_count :
    (t : ℕ) (k : String) (n : Option ℕ) (σ : Cells) → (bump t k n σ >>= λ r. some r.0) ≡ n
bump_count t k none σ = refl
bump_count t k (some n) σ = refl

bump_inv :
    (t : ℕ) (k : String) (m : Option ℕ) (σ : Cells) (n : ℕ) (σ' : Cells)
    → bump t k m σ ≡ some (n, σ')
    → (m ≡ some n)
      × (σ' ≡ write k (some (record { value = number n; deadline = deadline_at t (σ k) })) σ)
bump_inv t k none σ n σ' e = ground arith
bump_inv t k (some m) σ n σ' e = ground arith

pub get-set_ex :
    (now t : ℕ) (k j : String) (v : Stored) (s : ℕ) (σ : Cells)
    → now ≤ t
    → get t j (set_ex now k v s σ)
      ≡ (if str_eq k j then (if ltb t (now + s * 1000) then some v else none) else get t j σ)
get-set_ex now t k j v s σ h = ground arith

pub get-del :
    (t : ℕ) (k j : String) (σ : Cells)
    → get t j (write k none σ) ≡ (if str_eq k j then none else get t j σ)
get-del t k j σ = ground arith

pub get-expire :
    (t t' : ℕ) (k j : String) (s : ℕ) (σ : Cells)
    → t ≤ t'
    → get t' j (expire t k s σ)
      ≡ (if str_eq k j then (if ltb t' (t + s * 1000) then get t k σ else none) else get t' j σ)
get-expire t t' k j s σ h = ground (arith, eq_iff k j)

pub get-incr :
    (t t' : ℕ) (k j : String) (σ σ' : Cells) (n : ℕ)
    → incr t k σ ≡ some (n, σ')
    → t ≤ t'
    → get t' j σ'
      ≡ (if str_eq k j then while_live (get t k σ) (get t' k σ) (number n) else get t' j σ)
get-incr t t' k j σ σ' n e h =
    let (made, same) = bump_inv t k (next_count (get t k σ)) σ n σ' e in
    rw same (ground (arith, eq_iff k j))

abbrev pub memory : Redis
memory = record {
  State = Cells;
  get = get;
  set_ex = set_ex;
  set_nx = set_nx;
  ttl = ttl;
  del = λ k σ. write k none σ;
  incr = incr;
  expire = expire;
  get-set_ex = get-set_ex;
  get-del = get-del;
  set_nx_lem = λ now k v s σ. refl;
  ttl_live = λ t k σ n e. ttl_of_live t (σ k) n e;
  get_earlier = λ t t' k σ v h e. seen_earlier t t' (σ k) v h e;
  incr_count = λ t k σ. bump_count t k (next_count (get t k σ)) σ;
  get-incr = get-incr;
  get-expire = get-expire;
}

abbrev pub nothing : Cells
nothing k = none
