-- ===== src/Migrate/Commands.antt =====
-- src/libmigrate/snapshot.c, restore.c: the loop of a child that moves the state of one target.
use disnix.Prelude.{List}
