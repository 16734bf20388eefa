-- ===== src/Kernel.antt =====
-- The file systems as the kernel puts them together: the operation tables that ramfs_init and devfs_init
-- fill, what vfs.c calls in the rest of the kernel, and boot_vfs_init of kernel/boot.c.
pub mod Dispatch
pub mod Reading
pub mod Demo
mod Tests
use matrix_os.Prelude.{ℕ, ◌<◌, ◌≡◌, List, [], ◌∷◌, Option, none, some}
use matrix_os.Prelude.Int.{ℤ, pos}
use matrix_os.Kmalloc.{Heap, kmalloc}
use matrix_os.FrameBuffer.{fb_putchar}
use matrix_os.Loader.{Loader}
use matrix_os.Vfs.{
  FileOperations, Filesystem, Machine, Vfs, vfs_init, vfs_register_fs, ramfs_name, devfs_name,
}
use matrix_os.RamFs.{
  RamFs, ramfs_open, ramfs_close, ramfs_read, ramfs_write, ramfs_seek, ramfs_ioctl, ramfs_stat,
  ramfs_init,
}
use matrix_os.DevFs.{
  Devices, devfs_open, devfs_close, devfs_read, devfs_write, devfs_seek, devfs_ioctl, devfs_stat,
  devfs_init,
}

-- What the file systems and vfs.c keep and change beside the table.
pub record Store : Type 0 where
  pub devices : Devices
  pub ramfs : RamFs
  pub heap : Heap

abbrev pub with_ramfs : Store → ℤ × RamFs → ℤ × Store
with_ramfs k (result, r) = (result, record k { ramfs = r })

abbrev pub with_devices : Store → ℤ × Devices → ℤ × Store
with_devices k (result, d) = (result, record k { devices = d })

-- A read writes the bytes of the file to memory.
abbrev pub ramfs_read_store : ℤ → ℕ → ℕ → Store → ℤ × Store
ramfs_read_store handle buf count k =
    let (result, r, m) = ramfs_read handle buf count k.ramfs k.devices.memory in
    (result, record k { devices = record k.devices { memory = m }; ramfs = r })

-- `ramfs_ops`; `files_addr` is the address of the array `files`.
unfoldable pub ramfs_ops : ℕ → FileOperations Store
ramfs_ops files_addr = record {
  open_file = some (λ path flags k. with_ramfs k (ramfs_open path flags k.ramfs));
  close = some (λ handle k. with_ramfs k (ramfs_close handle k.ramfs));
  read = some ramfs_read_store;
  write = some (λ handle buf count k. (ramfs_write handle buf count, k));
  seek = some (λ handle offset whence k. with_ramfs k (ramfs_seek handle offset whence k.ramfs));
  ioctl = some (λ handle request argp k. (ramfs_ioctl handle request argp, k));
  stat = some (λ path k. ramfs_stat files_addr path k.ramfs);
}

-- `devfs_ops`.
unfoldable pub devfs_ops : FileOperations Store
devfs_ops = record {
  open_file = some (λ path flags k. with_devices k (devfs_open path flags k.devices));
  close = some (λ handle k. with_devices k (devfs_close handle k.devices));
  read = some (λ handle buf count k. with_devices k (devfs_read handle buf count k.devices));
  write = some (λ handle buf count k. with_devices k (devfs_write handle buf count k.devices));
  seek = some (λ handle offset whence k. (devfs_seek handle offset whence, k));
  ioctl =
      some (λ handle request argp k. with_devices k (devfs_ioctl handle request argp k.devices));
  stat = some (λ path k. devfs_stat path);
}

-- A request to the heap, which zeroes the block in memory.
abbrev pub kmalloc_store : ℕ → Store → ℕ × Store
kmalloc_store size k =
    let (ptr, h, m) = kmalloc size k.heap k.devices.memory in
    (ptr, record k { heap = h; devices = record k.devices { memory = m } })

-- What vfs.c calls, by the components that it calls it in.
abbrev pub machine : Machine Store
machine = record {
  load = λ k a. k.devices.memory a;
  fb_putchar =
      λ c k. record k { devices = record k.devices { screen = fb_putchar c k.devices.screen } };
  kmalloc = kmalloc_store;
}

-- The call at the end of ramfs_init, after its own state is set.
unfoldable pub mount_ramfs : ℕ → Loader → Vfs Store → Store → Vfs Store × Store
mount_ramfs files_addr l v k =
    let (result, v', k') =
      vfs_register_fs machine (some ramfs_name) (some (ramfs_ops files_addr)) v
        (record k { ramfs = ramfs_init l }) in
    (v', k')

unfoldable pub mount_devfs : Vfs Store → Store → Vfs Store × Store
mount_devfs v k =
    let (result, v', k') =
      vfs_register_fs machine (some devfs_name) (some devfs_ops) v
        (record k { devices = devfs_init k.devices }) in
    (v', k')

-- `vfs_init(); ramfs_init(); devfs_init();`.
unfoldable pub boot_vfs_init : ℕ → Loader → Store → Vfs Store × Store
boot_vfs_init files_addr l k = let (v, k') = mount_ramfs files_addr l vfs_init k in mount_devfs v k'
