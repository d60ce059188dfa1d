-- ===== src/Ssd/Initial.antt =====
-- The ssd as its constructor leaves it.
use mnftl.Base.{ℕ, zero, suc, ◌+◌, ◌*◌, ◌≡◌, refl, ap, map, arith, length, replicate, All}
use mnftl.Config.{Config}
use mnftl.Channel.{Channel, connect, new_channel}
use mnftl.Bus.{new_bus}
use mnftl.Bus.Returns.{IsConnected}
use mnftl.Flash.Kept.{IsNew, IsArray-IsNew}
use mnftl.Flash.Package.Returns.{IsPackage, package_count, new_package-IsNew}
use mnftl.Ssd.{new_ssd, new_packages, connect_dies}
use mnftl.Ssd.Returns.{IsDevice, ssd_count}

new_packages_lem :
    (c : Config) (n at : ℕ)
    → (length (new_packages c n at) ≡ n)
      × All (IsNew c (IsPackage c) package_count) (new_packages c n at)
unfolding new_packages
new_packages_lem c zero at = (refl, tt)
new_packages_lem c (suc n) at =
    let rest =
      new_packages_lem c n (at + c.package_size * c.die_size * c.plane_size * c.block_size) in
    (ap suc rest.0, (new_package-IsNew c at, rest.1))

-- A channel to which dies are connected, or refused once it is full.
connect_dies-IsConnected : (n : ℕ) (ch : Channel) → IsConnected ch → IsConnected (connect_dies n ch)
unfolding connect_dies connect
connect_dies-IsConnected zero ch h = h
connect_dies-IsConnected (suc n) ch h = connect_dies-IsConnected n (connect ch).1 (ground arith)

channels_lem :
    (n k : ℕ) (ch : Channel)
    → IsConnected ch
    → (length (map (connect_dies k) (replicate n ch)) ≡ n)
      × All IsConnected (map (connect_dies k) (replicate n ch))
channels_lem zero k ch h = (refl, tt)
channels_lem (suc n) k ch h =
    (ap suc (channels_lem n k ch h).0, (connect_dies-IsConnected k ch h, (channels_lem n k ch h).1))

pub new_ssd-IsNew : (c : Config) → IsNew c (IsDevice c) ssd_count (new_ssd c)
unfolding new_ssd new_bus new_channel
new_ssd-IsNew c =
    let built = new_packages_lem c c.ssd_size 0 in
    let parts =
      IsArray-IsNew c (IsPackage c) package_count (λ x. x.pkg) c.ssd_size
        (new_packages c c.ssd_size 0) built.0 built.1 (λ a lt. lt.pkg_lt) in
    let wires = channels_lem c.ssd_size c.package_size (new_channel c) (omega arith) in
    (
      record {
        sized = refl;
        parts = parts.0;
        wired = record { channels_length = wires.0; connected = wires.1 };
      },
      parts.1,
    )
