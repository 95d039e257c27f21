-- ===== src/Store/Cached.antt =====
-- The buffer cache of OS/hw3/buf.c as a store of blocks. `junk` is what `malloc` leaves in a new
-- buffer, which no defined read shows.
use kw_home_work.Disk.{Block}
use kw_home_work.Cache.{Cache, buf_read, buf_write}
use kw_home_work.Cache.Valid.{IsValid}
use kw_home_work.Cache.View.{view}
use kw_home_work.Cache.Ops.{buf_read-view, buf_write-Wrote}
use kw_home_work.Store.{BlockStore}

abbrev pub cached_store : Block → BlockStore
cached_store junk = record {
  State = Cache;
  IsValid = IsValid;
  block = view;
  buf_read = λ b c. buf_read b junk c;
  buf_write = buf_write;
  read_law = λ c b d v h. buf_read-view b junk d v h;
  write_law = λ c b d v.
      let (c', wrote, w) = buf_write-Wrote b d v in (c', wrote, w.valid, w.written, w.others);
}
