-- ===== src/Base/Errno.antt =====
-- The values of FreeBSD's <sys/errno.h> that the driver returns; 0 is success.
use Prim.Native.Nat.{ℕ}

abbrev pub eperm : ℕ
eperm = 1

abbrev pub enoent : ℕ
enoent = 2

abbrev pub eintr : ℕ
eintr = 4

abbrev pub eio : ℕ
eio = 5

abbrev pub enxio : ℕ
enxio = 6

abbrev pub enomem : ℕ
enomem = 12

abbrev pub eacces : ℕ
eacces = 13

abbrev pub ebusy : ℕ
ebusy = 16

abbrev pub einval : ℕ
einval = 22

abbrev pub enotty : ℕ
enotty = 25

abbrev pub eagain : ℕ
eagain = 35

abbrev pub eopnotsupp : ℕ
eopnotsupp = 45

abbrev pub etimedout : ℕ
etimedout = 60

abbrev pub enosys : ℕ
enosys = 78

abbrev pub eproto : ℕ
eproto = 92
