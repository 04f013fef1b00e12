-- ===== src/Widget/Closest/Best.antt =====
-- `lv_get_closest_element_index` of ui/extra/lv_upgrade.c and the distance of keys.
use frameworks_system_ota.Prelude.{
  ℕ, zero, suc, ◌+◌, ◌-◌, ◌^◌, ◌≤◌, ◌<◌, ◌≡◌, ap, ◌∙◌, subst, refl, true, false, Bool, some, arith,
  inl, inr, Bool-cases, ltb, ◌==◌, if◌then◌else◌,
}
use frameworks_system_ota.Prelude.Int.{ℤ, pos}
use frameworks_system_ota.Widget.Data.{Upgrade}
use frameworks_system_ota.Widget.Images.{cells_of}
use frameworks_system_ota.Widget.Closest.{
  distance, key_at, closest_loop, lv_get_closest_element_index,
}

-- For numbers below 2^31 the difference is the distance of the two numbers.
pub distance_lem :
    (value key : ℕ)
    → value < 2 ^ 31
    → key < 2 ^ 31
    → (value ≤ key → distance value (pos key) ≡ key - value)
      × (key ≤ value → distance value (pos key) ≡ value - key)
unfolding distance
distance_lem value key h k = (λ p. ground arith, λ p. ground arith)

-- Every cell below `size` has an image; `key i` is its key.
pub record HasKeys (u : Upgrade) (key : ℕ → ℤ) : Type 0 where
  pub some_image : 0 < u.image_array_size
  pub at : (i : ℕ) → i < u.image_array_size → key_at (cells_of u) i ≡ some (key i)

-- `t` is the first of the indices below `n` with the smallest distance to `value`.
pub record IsClosest (key : ℕ → ℤ) (value n t : ℕ) : Type 0 where
  pub below : t < n
  pub smallest : (i : ℕ) → i < n → distance value (key t) ≤ distance value (key i)
  pub first : (i : ℕ) → i < t → distance value (key t) < distance value (key i)

-- The index itself for an image of the very value; else an index below the last one. There is none
-- before index 0: 255 is what -1 is as a `uint8_t`.
abbrev pub chosen : ℕ → ℕ → ℕ → ℕ
chosen size diff t =
    if diff == 0 then t else if t + 1 == size then (if t == 0 then 255 else t - 1) else t

module _ (u : Upgrade) (key : ℕ → ℤ) (keys : HasKeys u key) (value : ℕ) where
  -- One more index: it is taken only if it is strictly closer.
  IsClosest-next :
      (i t : ℕ)
      → IsClosest key value i t
      → IsClosest key value
          (i + 1)
          (if ltb (distance value (key i)) (distance value (key t)) then i else t)
  IsClosest-next i t c = elim (Bool-cases (ltb (distance value (key i)) (distance value (key t)))) [
    | inl closer ↦ rw closer (record {
      below = omega arith;
      smallest = λ j h. ground (arith, c.smallest j);
      first = λ j h. ground (arith, c.smallest j);
    })
    | inr farther ↦ rw farther (record {
      below = omega (arith, c.below);
      smallest = λ j h. ground (arith, c.smallest j);
      first = c.first;
    })
  ]

  pick :
      (b : Bool) (i t n : ℕ)
      → closest_loop n
          (i + 1)
          (cells_of u)
          value
          (if b then distance value (key i) else distance value (key t))
          (if b then i else t)
        ≡ closest_loop n
            (i + 1)
            (cells_of u)
            value
            (distance value (key (if b then i else t)))
            (if b then i else t)
  pick true i t n = refl
  pick false i t n = refl

  closest_loop_lem :
      (n i t : ℕ)
      → i + n ≡ u.image_array_size
      → IsClosest key value i t
      → (t' : ℕ) × (closest_loop n i (cells_of u) value (distance value (key t)) t
          ≡ some (distance value (key t'), t'))
        × IsClosest key value u.image_array_size t'
  unfolding closest_loop
  closest_loop_lem zero i t h c =
      let end : i ≡ u.image_array_size = omega arith in
      (t, refl, subst (λ n. IsClosest key value n t) end c)
  closest_loop_lem (suc n) i t h c =
      let closer = ltb (distance value (key i)) (distance value (key t)) in
      let (t', e, best) =
        closest_loop_lem n (i + 1) (if closer then i else t) (omega arith) (IsClosest-next i t c) in
      (t', rw (keys.at i (omega arith)) (pick closer i t n ∙ e), best)

  IsClosest-first : IsClosest key value 1 0
  IsClosest-first = record {
    below = omega arith;
    smallest = λ j h. ground arith;
    first = λ j h. absurd (omega arith);
  }

  -- If each of the at least one cells has an image: the result is the first index whose key has the
  -- smallest distance to the value, except that for a last index with a key other than the value it
  -- is the index before, and 255 where there is no index before.
  pub lv_get_closest_element_index_lem :
      u.image_array_size < 256
      → (t : ℕ) × IsClosest key value u.image_array_size t
        × (lv_get_closest_element_index u value
            ≡ some (chosen u.image_array_size (distance value (key t)) t))
  unfolding lv_get_closest_element_index
  lv_get_closest_element_index_lem h =
      let (t, e, best) =
        closest_loop_lem (u.image_array_size - 1) 1 0 (omega (arith, keys.some_image))
          IsClosest-first in
      (t, best, rw (keys.at 0 keys.some_image, e) (ap some (ground (arith, best.below))))
