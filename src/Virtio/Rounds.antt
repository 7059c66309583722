-- ===== src/Virtio/Rounds.antt =====
-- src/virtio.rs and src/virtio_rng.rs: the loop `while avail_idx != used_idx` of `process_queue`, over
-- any way to serve one request, and its end. It is on fuel; `none` is that the fuel ran out. The
-- indices are of 16 bits and wrap around.
use qemu_rust_risc_v.Prelude.{
  ℕ, zero, suc, ◌+◌, ◌-◌, ◌%◌, ◌^◌, ◌≤◌, ◌<◌, ◌≡◌, refl, arith, sym, true, false, ◌==◌,
  if◌then◌else◌, ok, err, Option, none, some, Bool-cases, inl, inr,
}
use qemu_rust_risc_v.Virtio.Guest.{Guest, Answer}

-- The outcome of a request, and the requests after it.
abbrev pub continue :
    {H : Type 0} → Answer H (Unit {0}) → (Guest H → Option (Answer H ℕ)) → Option (Answer H ℕ)
continue (ok _, g) rest = rest g
continue (err e, g) rest = some (err e, g)

abbrev pub next_idx : ℕ → ℕ
next_idx idx = (idx + 1) % 2 ^ 16

-- How many requests lie between two indices.
abbrev pub pending : ℕ → ℕ → ℕ
pending avail_idx used_idx = (avail_idx + (2 ^ 16 - used_idx)) % 2 ^ 16

module _ {H : Type 0} (serve : ℕ → Guest H → Answer H (Unit {0})) (avail_idx : ℕ) where
  -- The loop from an index on, with the index at its end.
  unfoldable pub serve_all : ℕ → ℕ → Guest H → Option (Answer H ℕ)
  serve_all zero used_idx g = if avail_idx == used_idx then some (ok used_idx, g) else none
  serve_all (suc n) used_idx g = elim (avail_idx == used_idx) [
    | true ↦ some (ok used_idx, g)
    | false ↦ continue (serve used_idx g) (serve_all n (next_idx used_idx))
  ]

  -- The loop ends with an error of a request, or at the index of the driver.
  abbrev pub Ended : Answer H ℕ → Type 0
  Ended (ok used_idx, g) = used_idx ≡ avail_idx
  Ended (err e, g) = Unit {0}

  abbrev pub Ends : Option (Answer H ℕ) → Type 0
  Ends o = (a : Answer H ℕ) × (o ≡ some a) × Ended a

  continue-Ends :
      (a : Answer H (Unit {0})) (rest : Guest H → Option (Answer H ℕ))
      → ((g : Guest H) → Ends (rest g))
      → Ends (continue a rest)
  continue-Ends (ok _, g) rest h = h g
  continue-Ends (err e, g) rest h = ((err e, g), refl, tt)

  -- Fuel for as many requests as are pending is enough for the loop, whatever the requests do: it
  -- ends, and unless a request fails it ends at the index of the driver. At most 65,535 are pending.
  pub serve_all-Ends :
      (fuel used_idx : ℕ) (g : Guest H)
      → avail_idx < 2 ^ 16
      → used_idx < 2 ^ 16
      → pending avail_idx used_idx ≤ fuel
      → Ends (serve_all fuel used_idx g)
  unfolding serve_all
  serve_all-Ends zero used_idx g ha hu h =
      let same : avail_idx ≡ used_idx = omega (arith, h) in
      let test : (avail_idx == used_idx) ≡ true = ground (arith, same) in
      rw test ((ok used_idx, g), refl, sym same)
  serve_all-Ends (suc n) used_idx g ha hu h = elim (Bool-cases (avail_idx == used_idx)) [
    | inl same ↦ rw (same, serve_all) ((ok used_idx, g), refl, ground (arith, same))
    | inr more ↦
        rw (more, serve_all)
          (continue-Ends (serve used_idx g) (serve_all n (next_idx used_idx)) (λ g1.
            serve_all-Ends n (next_idx used_idx) g1 ha (omega arith) (ground (arith, more, h))))
  ]
