-- ===== src/Base/Errno.antt =====
-- The Linux error numbers that the code returns, negated, as in `return -EINVAL`.
use drm_hwcomposer.Base.Int.{ℤ, neg}

abbrev pub enoent : ℤ
enoent = neg 2

abbrev pub eintr : ℤ
eintr = neg 4

abbrev pub eagain : ℤ
eagain = neg 11

abbrev pub enomem : ℤ
enomem = neg 12

abbrev pub enodev : ℤ
enodev = neg 19

abbrev pub einval : ℤ
einval = neg 22

abbrev pub etimedout : ℤ
etimedout = neg 110

abbrev pub ealready : ℤ
ealready = neg 114
