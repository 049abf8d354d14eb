-- ===== src/Pkg.antt =====
-- src/pkg: kernel modules. `Names` compares the names of modules and of their files, `Deps` is the
-- reader of modules.dep in resolve.c, and `Status` the lists of modules that modprobe.c reads. `Files`
-- describes the paths of module files. A range of characters is the list of its bytes.
pub mod Names
pub mod Files
pub mod Deps
pub mod Status
pub mod Modprobe
