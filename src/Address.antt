-- ===== src/Address.antt =====
-- ssd_address.cpp: physical addresses, as a linear page number and as the fields that it stands for.
pub mod Linear
pub mod Match
use mnftl.Base.{
  ℕ, zero, suc, ◌+◌, ◌-◌, ◌*◌, ◌/◌, ◌%◌, ◌^◌, ◌≤◌, ◌<◌, max, ◌≡◌, refl, sym, ap, ◌∙◌, subst, ◌≢◌,
  ◌↔◌, ◌⊎◌, inl, inr, Bool, true, false, not, ◌&&◌, ◌||◌, Option, none, some, List, [], ◌∷◌, ◌++◌,
  map, arith, ltb, leb, ◌==◌, if◌then◌else◌, ltb→lt, lt→ltb, leb→le, le→leb, ==_iff, Bool-cases,
  Option-cases, u32, u64, Run, ok, abort, ◌>>=◌, ◌>>◌, assert, or_abort, fetch, length, get_elem?,
  set, replicate, count_if, keep_if, All, length-append, length-set, length-replicate, get_elem?-lt,
  get_elem?_total, get_elem?-set_self, get_elem?-set_ne, get_elem?-replicate, count_if-set,
  count_if-replicate, All_get, All-set,
}
use mnftl.Config.{Config, AddressValid, rank}

-- `class Address` of ssd.h.
pub record Address : Type 0 where
  pub pkg : ℕ
  pub die : ℕ
  pub plane : ℕ
  pub block : ℕ
  pub page : ℕ
  pub real_address : ℕ
  pub valid : AddressValid

-- `Address::Address(void)`. It leaves `real_address` unset, which nothing may read: 0 here.
unfoldable pub no_address : Address
no_address = record {
  pkg = 0;
  die = 0;
  plane = 0;
  block = 0;
  page = 0;
  real_address = 0;
  valid = AddressValid.none;
}

module _ (c : Config) where
  -- `Address::set_linear_address(ulong)`
  unfoldable pub set_linear : ℕ → Address → Address
  set_linear a addr =
      let blocks = a / c.block_size in
      let planes = blocks / c.plane_size in
      let dies = planes / c.die_size in
      let pkgs = dies / c.package_size in
      record addr {
        real_address = a;
        page = a % c.block_size;
        block = blocks % c.plane_size;
        plane = planes % c.die_size;
        die = dies % c.package_size;
        pkg = pkgs % c.ssd_size;
      }

  -- `Address::set_linear_address(ulong, enum address_valid)`
  unfoldable pub set_linear_address : ℕ → AddressValid → Address → Address
  unfolding set_linear
  set_linear_address a v addr = record (set_linear a addr) { valid = v }

  -- `Address::Address(uint, enum address_valid)`: the argument is a 32-bit number.
  unfoldable pub at : ℕ → AddressValid → Address
  unfolding set_linear_address no_address
  at a v = set_linear_address (u32 a) v no_address

-- `Address::get_linear_address`
abbrev pub get_linear_address : Address → ℕ
get_linear_address a = a.real_address

-- `Address::check_valid`: how far the fields are within the given sizes, and no further than `valid`.
pub valid_upto : (ssds pkgs dies planes blocks : ℕ) → Address → AddressValid
valid_upto ssds pkgs dies planes blocks a =
    let v = rank a.valid in
    if leb 1 v && ltb a.pkg ssds
    then if leb 2 v && ltb a.die pkgs
      then if leb 3 v && ltb a.plane dies
        then if leb 4 v && ltb a.block planes
          then if leb 5 v && ltb a.page blocks then AddressValid.page else AddressValid.block
          else AddressValid.plane
        else AddressValid.die
      else AddressValid.pkg
    else AddressValid.none

-- The method also stores its result in `valid`.
pub check_valid : (ssds pkgs dies planes blocks : ℕ) → Address → AddressValid × Address
unfolding valid_upto
check_valid ssds pkgs dies planes blocks a =
    let v = valid_upto ssds pkgs dies planes blocks a in (v, record a { valid = v })

-- One level of `Address::compare`: the field is the same and meant in both.
abbrev same_at : ℕ → (Address → ℕ) → Address → Address → Bool
same_at n field a b = (field a == field b) && leb n (rank a.valid) && leb n (rank b.valid)

-- `Address::compare`: down to which level two addresses agree.
pub compare_address : Address → Address → AddressValid
compare_address a b =
    if same_at 1 (λ x. x.pkg) a b
    then if same_at 2 (λ x. x.die) a b
      then if same_at 3 (λ x. x.plane) a b
        then if same_at 4 (λ x. x.block) a b
          then if same_at 5 (λ x. x.page) a b then AddressValid.page else AddressValid.block
          else AddressValid.plane
        else AddressValid.die
      else AddressValid.pkg
    else AddressValid.none
