-- ===== src/Disk.antt =====
-- devices/disk.c as the file system sees it: numbered sectors of 512 bytes. The channel protocol
-- below `disk_read` and `disk_write` is taken to deliver what it was given.
use pintos_filesys.Base.{ℕ, ◌^◌, Outcome, ok, ◌>>◌, assert, ltb, ◌==◌, if◌then◌else◌}

-- The content of a sector, byte by byte; only offsets below 512 are meant.
abbrev pub Sector : Type 0
Sector = ℕ → ℕ

abbrev pub disk_sector_size : ℕ
disk_sector_size = 512

pub record Disk : Type 0 where
  pub capacity : ℕ
  pub sectors : ℕ → Sector

unfoldable pub select_sector : Disk → ℕ → Outcome (Unit {0})
select_sector d sec_no = assert (ltb sec_no d.capacity) >> assert (ltb sec_no (2 ^ 28))

abbrev pub store : (ℕ → Sector) → ℕ → Sector → ℕ → Sector
store f s b t = if t == s then b else f t

unfoldable pub disk_read : Disk → ℕ → Outcome Sector
unfolding select_sector
disk_read d sec_no = select_sector d sec_no >> ok (d.sectors sec_no)

unfoldable pub disk_write : Disk → ℕ → Sector → Outcome Disk
unfolding select_sector
disk_write d sec_no buffer =
    select_sector d sec_no >> ok (record d { sectors = store d.sectors sec_no buffer })

abbrev pub zeros : Sector
zeros o = 0
