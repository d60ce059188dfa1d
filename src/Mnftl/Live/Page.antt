-- ===== src/Mnftl/Live/Page.antt =====
-- The page that MNFTL writes next, and what its write leaves.
use mnftl.Base.{
  ℕ, ◌+◌, ◌-◌, ◌*◌, ◌%◌, ◌^◌, ◌≤◌, ◌<◌, ◌≡◌, refl, sym, ap, ◌∙◌, subst, inl, inr, Bool, true, false,
  some, arith, ltb, ◌==◌, if◌then◌else◌, ==_iff, Bool-cases, u32, ok, Returns, Returns-bind,
  Returns-assert, Returns-map,
}
use native.Mathlib.Nat.{mod-eq_of_lt}
use mnftl.Config.{Config, Status, AddressValid, total_pages, rank}
use mnftl.Address.{Address, no_address, set_linear_address}
use mnftl.Event.{Event}
use mnftl.Flash.Kept.{raise, raise_zero}
use mnftl.Ssd
use mnftl.Ssd.{Ssd}
use mnftl.Ssd.Returns.{ssd_count, get_free_page-Returns}
use mnftl.Ssd.Numbers.{blocks_of, count_no, first_page, in_ssd-eq}
use mnftl.Controller.Returns.{rise_in}
use mnftl.BlockManager.{Machine}
use mnftl.BlockManager.Alloc.Returns.{linear-InRange}
use mnftl.BlockManager.Issue.Returns.{Raised}
use mnftl.Mnftl.Tables.Laws.{entry}
use mnftl.Mnftl.Tables.Shape.{IsShaped}
use mnftl.Mnftl.{Mnftl, num_pmd_of, q_of, alloc_page_in_current_block}
use mnftl.Mnftl.Live.{IsRunnable, Live, pages_left}

-- A page by its linear number.
abbrev pub place : Config → ℕ → Address
place c ppn = set_linear_address c ppn AddressValid.page no_address

page_room : (n k m b : ℕ) → k < m → n < b → n * m + k < b * m
page_room n k m b h l = grind arith

start_mod : (n m : ℕ) → 0 < m → (n * m) % m ≡ 0
start_mod n m h = grind arith

u32_lem : (n : ℕ) → n < 2 ^ 32 → u32 n ≡ n
u32_lem n h = mod-eq_of_lt h

module _ (c : Config) (run : IsRunnable c) (f : Mnftl) (w : Machine) (l : Live c f w)
    (has : f.has_current_block ≡ true) (room : f.current_page_offset < c.block_size) where
  -- The page that is written next.
  unfoldable pub next_page : ℕ
  next_page = (l.current has).number * c.block_size + f.current_page_offset

  pub alloc_page-Returns :
      Returns
        (λ o.
          (o.0 ≡ place c next_page)
          × (o.1 ≡ record f { current_page_offset = f.current_page_offset + 1 }))
        (alloc_page_in_current_block c f w)
  unfolding alloc_page_in_current_block next_page set_linear_address
  alloc_page-Returns =
      let P = λ (o : Address × Mnftl).
        (o.0 ≡ place c next_page)
        × (o.1 ≡ record f { current_page_offset = f.current_page_offset + 1 }) in
      let on = l.current has in
      let n = on.number * c.block_size in
      let a = set_linear_address c n AddressValid.block no_address in
      let at_end : ssd_count a w.ssd ≡ ok f.current_page_offset = on.count in
      let small : u32 (f.current_page_offset + 1) ≡ f.current_page_offset + 1 =
        u32_lem _ (let s = run.small in omega arith) in
      let start : n + f.current_page_offset - n % c.block_size ≡ next_page =
        (let z = start_mod on.number c.block_size run.set_up.block_pos in omega arith) in
      let got : Returns (λ b. b ≡ place c next_page) (Ssd.get_free_page c f.current_block w.ssd) =
        subst (λ y. Returns (λ b. b ≡ place c next_page) (Ssd.get_free_page c y w.ssd))
          (sym on.address)
          (Returns-map _ _ (Ssd.get_free_page c a w.ssd)
            (get_free_page-Returns c w.ssd l.shaped a
              (linear-InRange c n AddressValid.block no_address run.sized) (omega arith)
              f.current_page_offset room at_end)
            λ b h. h ∙ ap (place c) start) in
      let marked : ltb 0 (rank f.current_block.valid) ≡ true =
        ap (λ (x : Address). ltb 0 (rank x.valid)) on.address in
      Returns-assert P f.has_current_block _ has (
        Returns-assert P (ltb 0 (rank f.current_block.valid)) _ marked (
          Returns-bind (λ b. b ≡ place c next_page) P (Ssd.get_free_page c f.current_block w.ssd) _
            got λ b h. (h, ap (λ (x : ℕ). record f { current_page_offset = x }) small)))

  -- A write has gone through: requests are kept going, with a page less.
  unfoldable pub Written : Status × Event × Mnftl × Machine → Type 0
  Written o = Live c o.2 o.3 × (pages_left c o.2 o.3 + 1 ≡ pages_left c f w)

  pub ppn_lt : next_page < total_pages c
  unfolding next_page
  ppn_lt =
      page_room (l.current has).number f.current_page_offset c.block_size (blocks_of c) room
        (l.current has).inside

  module _ (f' : Mnftl) (w' : Machine) (k : Raised c (rise_in (place c next_page)) w w') where
    counted :
        (m : ℕ)
        → m < blocks_of c
        → count_no c m w'.ssd
          ≡ raise (if (l.current has).number == m then 1 else 0) (count_no c m w.ssd)
    unfolding next_page
    counted m lt =
        k.1 (first_page c m)
        ∙ ap (λ (b : Bool). raise (if b then 1 else 0) (count_no c m w.ssd))
            (in_ssd-eq c run.sized (l.current has).number f.current_page_offset m AddressValid.page
              no_address room (l.current has).inside lt)

    pub Written-intro :
        (s : Status) (e : Event)
        → f'.current_block ≡ f.current_block
        → f'.has_current_block ≡ true
        → f'.current_page_offset ≡ f.current_page_offset + 1
        → IsShaped (num_pmd_of c) (q_of c) f'.pmd f'.pmt
        → ((lbn i j ppn : ℕ) → entry lbn i j f'.pmt ≡ some ppn → ppn < total_pages c)
        → Written (s, e, f', w')
    unfolding Written
    Written-intro s e same still offset shaped mapped =
        let on = l.current has in
        let same_manager = k.2 in
        let next : w'.manager.simple_current_free ≡ w.manager.simple_current_free =
          ap (λ m. m.simple_current_free) same_manager in
        (
          record {
            shaped = k.0;
            unwritten = λ n h b.
                let before = on.below in
                let other : (on.number == n) ≡ false = elim (Bool-cases (on.number == n)) [
                  | inl g ↦
                      let eq : on.number ≡ n = (==_iff _ _).0 g in
                      let below : n * c.block_size + c.block_size ≤ w.manager.simple_current_free =
                        subst
                          (λ (x : ℕ).
                            x * c.block_size + c.block_size ≤ w.manager.simple_current_free)
                          eq before in
                      absurd (let pos = run.set_up.block_pos in omega arith)
                  | inr g ↦ g
                ] in
                counted n h
                ∙ ap (λ (b : Bool). raise (if b then 1 else 0) (count_no c n w.ssd)) other
                ∙ raise_zero _
                ∙ l.unwritten n h (omega arith);
            current = λ _. record {
              number = on.number;
              below = (let z = on.below in omega arith);
              inside = on.inside;
              address = same ∙ on.address;
              count =
                  counted on.number on.inside
                  ∙ ap (λ (b : Bool). raise (if b then 1 else 0) (count_no c on.number w.ssd))
                      ((==_iff on.number on.number).1 refl)
                  ∙ ap (raise 1) on.count
                  ∙ ap ok (sym offset);
              offset = omega arith;
            };
            tables = shaped;
            mapped = mapped;
          },
          ground arith,
        )
