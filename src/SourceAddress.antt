-- ===== src/SourceAddress.antt =====
-- libs/model/src/featurelayer.cpp: the packing of a view into the source data addresses as one
-- uint32_t, by sourceDataAddressListToModelAddress and modelAddressToSourceDataAddressList.
pub mod Tests
use Prim.Native.Nat.{bit_or, bit_and}
use mapget.Base.{
  ℕ, ◌-◌, ◌+◌, ◌*◌, ◌/◌, ◌%◌, ◌^◌, ◌<◌, ◌≡◌, ◌↔◌, inl, inr, Bool, true, false, Option, none, some,
  refl, sym, ap, ◌∙◌, ltb, if◌then◌else◌, arith, Bool-cases,
}
use mapget.Base.Bits.{bit_or-disjoint}

abbrev index_max : ℕ
index_max = 2 ^ 20 - 1

-- The low four bits, SourceAddressArenaSizeMax, are taken by a remainder.
pub model_address_to_source_data_address_list : ℕ → ℕ × ℕ
model_address_to_source_data_address_list addr = (addr / 2 ^ 4, addr % 2 ^ 4)

-- `none` is the exception. Both arguments are tested against the bound of the index.
pub source_data_address_list_to_model_address : ℕ → ℕ → Option ℕ
source_data_address_list_to_model_address index size =
    if ltb index_max index
    then none
    else (if ltb index_max size then none else some (bit_or (index * 2 ^ 4 % 2 ^ 32) size))

unpacked :
    (index size : ℕ)
    → size < 2 ^ 4
    → ◌≡◌ {A = ℕ × ℕ} ((index * 2 ^ 4 + size) / 2 ^ 4, (index * 2 ^ 4 + size) % 2 ^ 4) (index, size)
unpacked index size k =
    let high : (index * 2 ^ 4 + size) / 2 ^ 4 ≡ index = omega arith in
    let low : (index * 2 ^ 4 + size) % 2 ^ 4 ≡ size = omega arith in rw (high, low) refl

packed :
    (index size : ℕ)
    → index < 2 ^ 20
    → size < 2 ^ 4
    → model_address_to_source_data_address_list (bit_or (index * 2 ^ 4 % 2 ^ 32) size)
      ≡ (index, size)
unfolding model_address_to_source_data_address_list
packed index size h k =
    let small : index * 2 ^ 4 % 2 ^ 32 ≡ index * 2 ^ 4 = omega arith in
    ap (λ n. (bit_or n size / 2 ^ 4, bit_or n size % 2 ^ 4)) small
    ∙ ap (λ n. (n / 2 ^ 4, n % 2 ^ 4)) (bit_or-disjoint 4 index size k)
    ∙ unpacked index size k

guarded {ℓ} :
    {A : Type ℓ} (b : Bool) (o : Option A) {a : A}
    → (if b then none else o) ≡ some a
    → (b ≡ false) × (o ≡ some a)
guarded true o e = cc
guarded false o e = (refl, e)

some_injective {ℓ} : {A : Type ℓ} {a b : A} → some a ≡ some b → a ≡ b
some_injective e = cc

-- An address that was packed is unpacked to its index and size exactly if the size fits four bits:
-- a size of 16 or more is accepted, and lost.
unpack-pack :
    (index size addr : ℕ)
    → source_data_address_list_to_model_address index size ≡ some addr
    → (model_address_to_source_data_address_list addr ≡ (index, size)) ↔ (size < 2 ^ 4)
unfolding source_data_address_list_to_model_address model_address_to_source_data_address_list
unpack-pack index size addr e =
    let (small, rest) = guarded (ltb index_max index) _ e in
    let (size_small, made) = guarded (ltb index_max size) _ rest in
    (
      λ h. ground (arith, ap (λ (p : ℕ × ℕ). p.1) h),
      λ k.
          ap model_address_to_source_data_address_list (sym (some_injective made))
          ∙ packed index size (ground arith) k,
    )
