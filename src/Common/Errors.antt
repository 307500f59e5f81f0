-- ===== src/Common/Errors.antt =====
-- The negative errno values that the module's functions return. `einval` is `-EINVAL`, and so on.
pub data Errno : Type 0 where
  einval enomem eexist enospc enoent eperm efault efbig enotconn etimedout emsgsize : Errno
