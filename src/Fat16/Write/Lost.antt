-- ===== src/Fat16/Write/Lost.antt =====
-- Writes that lose their bytes, fat16_write of src/fs/fat/fat16_write.c.
use serpae_os.Fat16.Directory.{Directory}
