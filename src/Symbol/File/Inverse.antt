-- ===== src/Symbol/File/Inverse.antt =====
-- ToBitfinex and FromBitfinex undo one another.
use bfxfixgw.Base.{
  String, ◌≡◌, ap, some, arith, ◌==◌, eq_iff, eq_refl, Option-cases, Bool-cases, inl, inr,
}
use bfxfixgw.Base.Maps.{Order, IsOrder, lookup, find_first, Every, Distinct}
use bfxfixgw.Base.Maps.Entries.{Every-lookup}
use bfxfixgw.Base.Maps.Orders.{found, finds}
use bfxfixgw.Symbol.File.{
  FileSymbology, SymbolSet, to_bitfinex, from_bitfinex, to_bitfinex_in, from_bitfinex_in,
}

-- No symbol twice within a section, as in a Go map.
abbrev pub IsValid : FileSymbology → Type 0
IsValid f = Every (λ e. Distinct e.1.symbols) f.counterparties

module _ (symset : SymbolSet) (d : Distinct symset.symbols) (r : Order String) (o : IsOrder r) where
  from-to_in :
      (symbol bfx : String)
      → to_bitfinex_in r symset symbol ≡ some bfx
      → from_bitfinex_in symset bfx ≡ some symbol
  unfolding to_bitfinex_in from_bitfinex_in
  from-to_in symbol bfx h =
      elim (Option-cases (find_first (λ e. e.1 == symbol) (r symset.symbols))) [
        | inl missing ↦ ground arith
        | inr ((k, w), hit) ↦
            let (at, same) = found (λ e. e.1 == symbol) symset.symbols d r o k w hit in
            ground (arith, eq_iff w symbol)
      ]

  to-from_in :
      (bfx symbol : String)
      → ((k : String) → from_bitfinex_in symset k ≡ some symbol → k ≡ bfx)
      → from_bitfinex_in symset bfx ≡ some symbol
      → to_bitfinex_in r symset symbol ≡ some bfx
  unfolding to_bitfinex_in from_bitfinex_in
  to-from_in bfx symbol only h = elim (Bool-cases symset.passthrough) [
    | inl pass ↦ rw pass (cc (rw pass at h))
    | inr through ↦
        let stored : lookup bfx symset.symbols ≡ some symbol = rw through at h in
        let ((k, w), hit) =
          finds (λ e. e.1 == symbol) symset.symbols d r o bfx symbol stored (eq_refl symbol) in
        let (at, same) = found (λ e. e.1 == symbol) symset.symbols d r o k w hit in
        let w_is : w ≡ symbol = (eq_iff w symbol).0 same in
        let k_is : k ≡ bfx = only k (rw through (rw w_is at at)) in rw (through, hit) (ap some k_is)
  ]

module _ (f : FileSymbology) (v : IsValid f) (r : Order String) (o : IsOrder r) where
  valid_section :
      (counterparty : String) (symset : SymbolSet)
      → lookup counterparty f.counterparties ≡ some symset
      → Distinct symset.symbols
  valid_section counterparty symset =
      Every-lookup (λ e. Distinct e.1.symbols) f.counterparties counterparty symset v

  -- What ToBitfinex answers, FromBitfinex takes back to the counterparty's symbol, in whatever
  -- order Go ranges over the symbols.
  pub from-to_bitfinex :
      (symbol bfx counterparty : String)
      → to_bitfinex r f symbol counterparty ≡ some bfx
      → from_bitfinex f bfx counterparty ≡ some symbol
  unfolding to_bitfinex from_bitfinex
  from-to_bitfinex symbol bfx counterparty h =
      elim (Option-cases (lookup counterparty f.counterparties)) [
        | inl missing ↦ ground arith
        | inr (symset, hit) ↦
            let d = valid_section counterparty symset hit in
            rw (hit, from_bitfinex)
              (from-to_in symset d r o symbol bfx (rw (hit, to_bitfinex) at h))
      ]

  -- If the counterparty's section gives no symbol to two Bitfinex symbols, then ToBitfinex takes
  -- back what FromBitfinex answers, in whatever order Go ranges over the symbols.
  pub to-from_bitfinex :
      (bfx symbol counterparty : String)
      → ((k : String) → from_bitfinex f k counterparty ≡ some symbol → k ≡ bfx)
      → from_bitfinex f bfx counterparty ≡ some symbol
      → to_bitfinex r f symbol counterparty ≡ some bfx
  unfolding to_bitfinex from_bitfinex
  to-from_bitfinex bfx symbol counterparty only h =
      elim (Option-cases (lookup counterparty f.counterparties)) [
        | inl missing ↦ ground arith
        | inr (symset, hit) ↦
            let d = valid_section counterparty symset hit in
            rw (hit, to_bitfinex)
              (to-from_in symset d r o bfx symbol (λ k e. only k (rw (hit, from_bitfinex) e))
                (rw (hit, from_bitfinex) at h))
      ]
