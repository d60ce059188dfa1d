-- ===== src/Ssd/Returns.antt =====
-- When reads, writes and replacements of a page, and the search of a free one, return in a ssd.
use mnftl.Base.{
  ℕ, ◌+◌, ◌-◌, ◌%◌, ◌^◌, ◌≤◌, ◌<◌, ◌≡◌, sym, inl, inr, Bool, true, false, ◌&&◌, List, arith, ltb,
  leb, ◌==◌, le→leb, Bool-cases, ok, Returns, Returns-bind, Returns-assert, Returns-fetch,
}
use mnftl.Config.{Config, Status, AddressValid, BlockType, rank}
use mnftl.Address.{Address, set_linear_address}
use mnftl.Address.Linear.{InRange}
use mnftl.Event.{Event}
use mnftl.Flash.Page.{Memory}
use mnftl.Flash.Block.{Block}
use mnftl.Flash.Wear.{route}
use mnftl.Flash.Kept.{Count, raise_zero, count_within, Kept, IsArray, part_at, set-Kept, route-Kept}
use mnftl.Flash.Effect.{IsUsed}
use mnftl.Bus.Returns.{IsBus}
use mnftl.Flash.Package
use mnftl.Flash.Package.{Package}
use mnftl.Flash.Package.Returns
use mnftl.Flash.Package.Returns.{IsPackage, package_count, in_package}
use mnftl.Ssd.Effects.{ssd_view}
use mnftl.Ssd.{Ssd, read, write, replace, modify_block, get_free_page}

pub record IsDevice (c : Config) (d : Ssd) : Type 0 where
  pub sized : d.size ≡ c.ssd_size
  pub parts : IsArray (IsPackage c) c.ssd_size d.packages
  pub wired : IsBus c d.bus

abbrev pub ssd_count : Count Ssd
ssd_count a d = count_within (λ x. x.pkg) package_count a d.packages

-- The addresses of one block of the ssd.
abbrev pub in_ssd : Address → Address → Bool
in_ssd a x = (x.pkg == a.pkg) && in_package a x

module _ (c : Config) (d : Ssd) (s : IsDevice c d) where
  module _ (e : Event) (m : Memory) where
    pub read-Kept :
        InRange c e.address
        → 4 ≤ rank e.address.valid
        → Returns (λ o. Kept (IsDevice c) ssd_count (in_ssd e.address) 0 d o.3) (read c e m d)
    unfolding read
    read-Kept lt full =
        let i = e.address.pkg in
        let P = λ (o : Status × Event × Memory × Ssd).
          Kept (IsDevice c) ssd_count (in_ssd e.address) 0 d o.3 in
        let (b, q, h) = part_at (IsPackage c) c.ssd_size i d.packages s.parts lt.pkg_lt in
        Returns-assert P (ltb e.address.pkg d.size && leb 1 (rank e.address.valid)) _
          (let z = s.sized in let y = lt.pkg_lt in ground arith)
          (Returns-bind
            (λ (o : Status × Event × Memory × List Package).
              Kept (IsArray (IsPackage c) c.ssd_size) (count_within (λ x. x.pkg) package_count)
                (in_ssd e.address) 0 d.packages o.3)
            P (route i (Package.read c e m) d.packages) _
            (route-Kept (IsPackage c) package_count (λ x. x.pkg) (in_package e.address) 0 c.ssd_size
              i d.packages b s.parts q (Package.read c e m) (Returns.read-Kept c b h e m lt full))
            λ o k. record {
              shaped = record { sized = s.sized; parts = k.shaped; wired = s.wired };
              counts = k.counts;
            })

    pub write-Kept :
        c.block_size < 2 ^ 32
        → e.noop ≡ false
        → InRange c e.address
        → 4 ≤ rank e.address.valid
        → ssd_count e.address d ≡ ok e.address.page
        → Returns (λ o. Kept (IsDevice c) ssd_count (in_ssd e.address) 1 d o.3) (write c e m d)
    unfolding write
    write-Kept small n lt full at_end =
        let i = e.address.pkg in
        let P = λ (o : Status × Event × Memory × Ssd).
          Kept (IsDevice c) ssd_count (in_ssd e.address) 1 d o.3 in
        let (b, q, h) = part_at (IsPackage c) c.ssd_size i d.packages s.parts lt.pkg_lt in
        Returns-assert P (ltb e.address.pkg d.size && leb 1 (rank e.address.valid)) _
          (let z = s.sized in let y = lt.pkg_lt in ground arith)
          (Returns-bind
            (λ (o : Status × Event × Memory × List Package).
              Kept (IsArray (IsPackage c) c.ssd_size) (count_within (λ x. x.pkg) package_count)
                (in_ssd e.address) 1 d.packages o.3)
            P (route i (Package.write c e m) d.packages) _
            (route-Kept (IsPackage c) package_count (λ x. x.pkg) (in_package e.address) 1 c.ssd_size
              i d.packages b s.parts q (Package.write c e m)
              (Returns.write-Kept c b h e m small n lt full (rw q at at_end)))
            λ o k. record {
              shaped = record { sized = s.sized; parts = k.shaped; wired = s.wired };
              counts = k.counts;
            })

    pub replace_full-Kept :
        rank e.replace_address.valid ≡ 5
        → InRange c e.address
        → InRange c e.replace_address
        → IsUsed (ssd_view e.replace_address d)
        → Returns
            (λ o. Kept (IsDevice c) ssd_count (in_ssd e.replace_address) 0 d o.3)
            (replace e m d)
    unfolding replace
    replace_full-Kept full at lt u =
        let i = e.replace_address.pkg in
        let P = λ (o : Status × Event × Memory × Ssd).
          Kept (IsDevice c) ssd_count (in_ssd e.replace_address) 0 d o.3 in
        let (b, q, h) = part_at (IsPackage c) c.ssd_size i d.packages s.parts lt.pkg_lt in
        let inside : ltb i d.size ≡ true = (let z = s.sized in let y = lt.pkg_lt in ground arith) in
        rw (full, inside)
          (Returns-bind
            (λ (o : Status × Event × Memory × List Package).
              Kept (IsArray (IsPackage c) c.ssd_size) (count_within (λ x. x.pkg) package_count)
                (in_ssd e.replace_address) 0 d.packages o.3)
            P (route i (Package.replace e m) d.packages) _
            (route-Kept (IsPackage c) package_count (λ x. x.pkg) (in_package e.replace_address) 0
              c.ssd_size i d.packages b s.parts q (Package.replace e m)
              (Returns.replace-Kept c b h e m at lt (rw q at u)))
            λ o k. record {
              shaped = record { sized = s.sized; parts = k.shaped; wired = s.wired };
              counts = k.counts;
            })

    -- Without an address to replace there is nothing to do.
    pub replace_none-Kept :
        rank e.replace_address.valid ≡ 0
        → Returns
            (λ o. Kept (IsDevice c) ssd_count (in_ssd e.replace_address) 0 d o.3)
            (replace e m d)
    unfolding replace
    replace_none-Kept none_there = rw none_there (record {
      shaped = s;
      counts = λ a. elim (Bool-cases (in_ssd e.replace_address a)) [
        | inl g ↦ rw g (sym (raise_zero _))
        | inr g ↦ rw g (sym (raise_zero _))
      ];
    })

  module _ (a : Address) (lt : InRange c a) (full : 3 ≤ rank a.valid) where
    pub set_type-Kept :
        (t : BlockType)
        → Returns
            (Kept (IsDevice c) ssd_count (in_ssd a) 0 d)
            (modify_block a (λ b. ok (record b { btype = t })) d)
    unfolding modify_block
    set_type-Kept t =
        let P = Kept (IsDevice c) ssd_count (in_ssd a) 0 d in
        let f = λ (b : Block). ok (record b { btype = t }) in
        let (b, q, h) = part_at (IsPackage c) c.ssd_size a.pkg d.packages s.parts lt.pkg_lt in
        Returns-assert P (leb 1 (rank a.valid)) _ (le→leb _ _ (omega arith)) (
          Returns-fetch P d.packages a.pkg _ b q (
            Returns-bind (Kept (IsPackage c) package_count (in_package a) 0 b) P
              (Package.modify_block a f b) _ (Returns.set_type-Kept c b h a lt full t)
              λ b' r.
                let k =
                  set-Kept (IsPackage c) package_count (λ x. x.pkg) (in_package a) 0 c.ssd_size
                    a.pkg d.packages b s.parts q b' r in
                record {
                  shaped = record { sized = s.sized; parts = k.shaped; wired = s.wired };
                  counts = k.counts;
                }))

    pub get_free_page-Returns :
        (n : ℕ)
        → n < c.block_size
        → ssd_count a d ≡ ok n
        → Returns
            (λ x.
              x
              ≡ set_linear_address c
                  (a.real_address + n - a.real_address % c.block_size)
                  AddressValid.page
                  a)
            (get_free_page c a d)
    unfolding get_free_page
    get_free_page-Returns n room at_end =
        let P = λ (x : Address).
          x
          ≡ set_linear_address c (a.real_address + n - a.real_address % c.block_size)
              AddressValid.page a in
        let (b, q, h) = part_at (IsPackage c) c.ssd_size a.pkg d.packages s.parts lt.pkg_lt in
        Returns-assert P (ltb a.pkg d.size && leb 1 (rank a.valid)) _
          (let z = s.sized in let y = lt.pkg_lt in ground arith)
          (Returns-fetch P d.packages a.pkg _ b q
            (Returns.get_free_page-Returns c b h a lt full n room (rw q at at_end)))
