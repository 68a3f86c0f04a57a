-- ===== src/Fat16/Update/Delete.antt =====
-- Files that are deleted, fat16_delete of src/fs/fat/fat16_write.c.
use serpae_os.Fat16.Directory.{Directory}
