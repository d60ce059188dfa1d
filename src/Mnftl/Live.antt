-- ===== src/Mnftl/Live.antt =====
-- What requests to MNFTL need to return: a configuration for it, and a state of it.
pub mod Block
pub mod Page
pub mod Store
pub mod Others
pub mod Initial
use mnftl.Base.{
  ℕ, zero, suc, ◌+◌, ◌-◌, ◌*◌, ◌/◌, ◌%◌, ◌^◌, ◌≤◌, ◌<◌, max, ◌≡◌, refl, sym, ap, ◌∙◌, subst, ◌≢◌,
  ◌↔◌, ◌⊎◌, inl, inr, Bool, true, false, not, ◌&&◌, ◌||◌, Option, none, some, List, [], ◌∷◌, ◌++◌,
  map, arith, ltb, leb, ◌==◌, if◌then◌else◌, ltb→lt, lt→ltb, leb→le, le→leb, ==_iff, if_cases,
  Bool-cases, Option-cases, u32, u64, Run, ok, abort, ◌>>=◌, ◌>>◌, assert, or_abort, fetch, Every,
  Every-bind, Every-assert, Every_ok, Every-trivial, Every-fetch, Every-both, Every-map, Returns,
  Returns-bind, Returns-assert, Returns-fetch, Returns-Every, Returns-map, Returns-eq, length,
  get_elem?, set, replicate, count_if, keep_if, All, length-append, length-set, length-replicate,
  get_elem?-lt, get_elem?_total, get_elem?-set_self, get_elem?-set_ne, get_elem?-set,
  get_elem?-replicate, count_if-set, count_if-replicate, All_get, All-set,
}
use mnftl.Config.{Config, IsSized, AddressValid, number_of_addressable_blocks, total_pages}
use mnftl.Address.{Address, no_address, set_linear_address}
use mnftl.Ssd.{Ssd}
use mnftl.Ssd.Returns.{IsDevice}
use mnftl.Ssd.Numbers.{blocks_of, count_no}
use mnftl.BlockManager.{Machine}
use mnftl.Mnftl.Tables.Shape.{IsShaped}
use mnftl.Mnftl.Tables.Laws.{entry}
use mnftl.Mnftl.{Mnftl, q_of, num_pmd_of}
use mnftl.Mnftl.Inv.{IsSetUp}

-- A configuration under which MNFTL runs.
pub record IsRunnable (c : Config) : Type 0 where
  pub set_up : IsSetUp c
  pub sized : IsSized c
  pub single : c.virtual_page_size ≡ 1
  pub timed : 0 < c.bus_ctrl_delay
  pub small : c.block_size < 2 ^ 32
  pub entries : 0 < q_of c

-- The current block, by its number: its pages are written up to the offset.
pub record OnBlock (c : Config) (f : Mnftl) (w : Machine) : Type 0 where
  pub number : ℕ
  pub below : number * c.block_size + c.block_size ≤ w.manager.simple_current_free
  pub inside : number < blocks_of c
  pub address :
      f.current_block ≡ set_linear_address c (number * c.block_size) AddressValid.block no_address
  pub count : count_no c number w.ssd ≡ ok f.current_page_offset
  pub offset : f.current_page_offset ≤ c.block_size

-- What keeps requests from stopping the process.
pub record Live (c : Config) (f : Mnftl) (w : Machine) : Type 0 where
  pub shaped : IsDevice c w.ssd
  pub unwritten :
      (n : ℕ)
      → n < blocks_of c
      → w.manager.simple_current_free ≤ n * c.block_size
      → count_no c n w.ssd ≡ ok 0
  pub current : f.has_current_block ≡ true → OnBlock c f w
  pub tables : IsShaped (num_pmd_of c) (q_of c) f.pmd f.pmt
  pub mapped : (lbn i j ppn : ℕ) → entry lbn i j f.pmt ≡ some ppn → ppn < total_pages c

-- How many pages can still be written.
abbrev pub pages_left : Config → Mnftl → Machine → ℕ
pages_left c f w =
    (blocks_of c * c.block_size - w.manager.simple_current_free)
    + (if f.has_current_block then c.block_size - f.current_page_offset else 0)

pub addressable_lem :
    (c : Config) → c.virtual_page_size ≡ 1 → number_of_addressable_blocks c ≡ blocks_of c
addressable_lem c h = rw h (omega arith)
