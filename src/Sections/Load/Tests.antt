-- ===== src/Sections/Load/Tests.antt =====
-- kern/elf_rw.c: an image with two section headers, of .debug_info and of the names.
