-- ===== src/Peer/Nonce.antt =====
-- service/peer/nonce.go: the process-wide nonce. A reading of the clock is the argument of a call;
-- the number returned is the nonce before strconv.FormatUint writes it in decimal.
use bfxfixgw.Base.{
  ℕ, ◌+◌, ◌*◌, ◌%◌, ◌^◌, ◌≤◌, ◌<◌, ◌≡◌, List, [], ◌∷◌, arith, nat_eq, if◌then◌else◌,
}

abbrev pub uint64_mod : ℕ
uint64_mod = 2 ^ 64

-- The package variables `ts` and `nonce`.
pub record NonceState : Type 0 where
  pub ts : ℕ
  pub nonce : ℕ

abbrev pub tick_of : ℕ → ℕ
tick_of now = now * 1000 % uint64_mod

-- init()
unfoldable pub init_nonce : ℕ → NonceState
init_nonce now = record { ts = tick_of now; nonce = 1 }

-- ts + nonce
abbrev pub issued : NonceState → ℕ
issued s = (s.ts + s.nonce) % uint64_mod

-- GetNonce
unfoldable pub get_nonce : ℕ → NonceState → ℕ × NonceState
get_nonce now s =
    let s' : NonceState =
      if nat_eq s.ts (tick_of now)
      then record s { nonce = (s.nonce + 1) % uint64_mod }
      else record { ts = tick_of now; nonce = 1 } in
    (issued s', s')

-- The nonces of a run of calls.
unfoldable pub nonces : List ℕ → NonceState → List ℕ
nonces [] s = []
nonces (now ∷ rest) s = let (n, s') = get_nonce now s in n ∷ nonces rest s'

-- The clock does not go back, a tick (one second) has at most 1000 calls, and the clock stays
-- below the point where its product with 1000 leaves 64 bits. `now` is the last tick and `calls`
-- counts the calls in it.
abbrev pub IsPaced : (now calls : ℕ) → List ℕ → Type 0
IsPaced now calls [] = Unit
IsPaced now calls (next ∷ rest) =
    let calls' : ℕ = if nat_eq now next then calls + 1 else 1 in
    (now ≤ next) × (calls' ≤ 1000) × (next * 1000 + 1000 < uint64_mod) × IsPaced next calls' rest

abbrev pub IsIncreasing : ℕ → List ℕ → Type 0
IsIncreasing last [] = Unit
IsIncreasing last (n ∷ rest) = (last < n) × IsIncreasing n rest

abbrev At : (now calls : ℕ) → NonceState → Type 0
At now calls s =
    (s.ts ≡ now * 1000) × (s.nonce ≡ calls) × (calls ≤ 1000) × (now * 1000 + 1000 < uint64_mod)

-- One call: the number returned is greater than the one before.
get_nonce-At :
    (now calls next : ℕ) (s : NonceState)
    → At now calls s
    → now ≤ next
    → (if nat_eq now next then calls + 1 else 1) ≤ 1000
    → next * 1000 + 1000 < uint64_mod
    → (issued s < (get_nonce next s).0)
      × At next (if nat_eq now next then calls + 1 else 1) (get_nonce next s).1
unfolding get_nonce
get_nonce-At now calls next s (t, n, few, small) h k small' = ground arith

nonces_increase_from :
    (clock : List ℕ) (now calls : ℕ) (s : NonceState)
    → At now calls s
    → IsPaced now calls clock
    → IsIncreasing (issued s) (nonces clock s)
unfolding nonces get_nonce
nonces_increase_from [] now calls s a p = tt
nonces_increase_from (next ∷ rest) now calls s a (h, few, small, p) =
    let (up, a') = get_nonce-At now calls next s a h few small in
    (up, nonces_increase_from rest next _ (get_nonce next s).1 a' p)

-- From the start of the process, if at most 1000 calls fall in one second (the call in init counts
-- as one) and the clock neither goes back nor leaves 64 bits, the nonces increase strictly.
pub nonces_increase :
    (start : ℕ) (clock : List ℕ)
    → start * 1000 + 1000 < uint64_mod
    → IsPaced start 1 clock
    → IsIncreasing (issued (init_nonce start)) (nonces clock (init_nonce start))
unfolding init_nonce
nonces_increase start clock h p = nonces_increase_from clock start 1 _ (omega arith) p
