-- ===== src/Config.antt =====
-- The configuration of ssd_config.cpp, which ssd.h declares as external constants, and the
-- enumerations of ssd.h. Delays and times are numbers of one fixed tick.
use mnftl.Base.{ℕ, ◌*◌, ◌/◌, ◌<◌, Bool}

-- The configuration variables that the modelled code reads.
pub record Config : Type 0 where
  pub ram_read_delay : ℕ
  pub ram_write_delay : ℕ
  pub bus_ctrl_delay : ℕ
  pub bus_data_delay : ℕ
  pub bus_max_connect : ℕ
  pub ssd_size : ℕ
  pub package_size : ℕ
  pub die_size : ℕ
  pub plane_size : ℕ
  pub plane_reg_read_delay : ℕ
  pub plane_reg_write_delay : ℕ
  pub block_size : ℕ
  pub block_erases : ℕ
  pub block_erase_delay : ℕ
  pub page_read_delay : ℕ
  pub page_write_delay : ℕ
  pub page_enable_data : Bool
  pub ftl_implementation : ℕ
  pub bast_log_block_limit : ℕ
  pub fast_log_block_limit : ℕ
  pub mnftl_oob_size : ℕ
  pub mnftl_entry_size : ℕ
  pub oob_read_delay : ℕ
  pub virtual_page_size : ℕ

-- What `load_config` computes last.
abbrev pub number_of_addressable_blocks : Config → ℕ
number_of_addressable_blocks c =
    (c.ssd_size * c.package_size * c.die_size * c.plane_size) / c.virtual_page_size

-- The pages of the device.
abbrev pub total_pages : Config → ℕ
total_pages c = c.ssd_size * c.package_size * c.die_size * c.plane_size * c.block_size

-- Every component has a part at least.
pub record IsSized (c : Config) : Type 0 where
  pub ssd_pos : 0 < c.ssd_size
  pub package_pos : 0 < c.package_size
  pub die_pos : 0 < c.die_size
  pub plane_pos : 0 < c.plane_size
  pub block_pos : 0 < c.block_size

pub data PageState : Type 0 where
  empty valid invalid : PageState

pub data BlockState : Type 0 where
  free active inactive : BlockState

pub data EventType : Type 0 where
  read write erase merge trim : EventType

pub data Status : Type 0 where
  failure success : Status

-- `data` is a reserved word, and `log` reads as a function.
pub data BlockType : Type 0 where
  log_block data_block log_seq : BlockType

-- How much of an address is meant. (`package` is a reserved word.)
pub data AddressValid : Type 0 where
  none pkg die plane block page : AddressValid

-- The values of `enum address_valid`, by which its members are compared.
abbrev pub rank : AddressValid → ℕ
rank AddressValid.none = 0
rank AddressValid.pkg = 1
rank AddressValid.die = 2
rank AddressValid.plane = 3
rank AddressValid.block = 4
rank AddressValid.page = 5

-- `enum ftl_implementation`
abbrev pub impl_fast : ℕ
impl_fast = 2

abbrev pub impl_dftl : ℕ
impl_dftl = 3

abbrev pub impl_bimodal : ℕ
impl_bimodal = 4

abbrev pub impl_mnftl : ℕ
impl_mnftl = 5
